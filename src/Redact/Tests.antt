-- ===== src/Redact/Tests.antt =====
-- The theorems of redaction at concrete inputs.
use go_collector.Base.{List, [], ◌∷◌, ◌++◌, ◌≡◌, refl, arith}
use go_collector.Base.Bytes.{Bytes, codes}
use go_collector.Redact.Credentials.{credentials-masked}
use go_collector.Redact.{mask_prefix, credentials, replace_credentials, match_credential}

abbrev form : List (Bytes × Bytes)
form = (codes "User-Password", codes "correct horse") ∷ (codes "page", codes "3") ∷ []

credentials_check :
    credentials (codes "key=token_abc123.ABCDEFGHIJKLMNOP!") ≡ codes "key=token_abc123.*********!"
unfolding credentials replace_credentials match_credential
credentials_check = refl

abbrev id : Bytes
id = codes "abc123"

abbrev secret : Bytes
secret = codes "ABCDEFGHIJKLMNOP"

credentials-masked_example :
    credentials (codes "key=" ++ (codes "token_" ++ (id ++ (b'.' ∷ (secret ++ codes "!")))))
    ≡ codes "key="
      ++ ((codes "token_" ++ id) ++ (codes "." ++ (mask_prefix ++ credentials (codes "!"))))
credentials-masked_example =
    credentials-masked (codes "key=") id secret (codes "!") (refl, (refl, (refl, (refl, tt)))) refl
      (omega arith) refl (omega arith) refl
