-- ===== src/Redact/Credentials.antt =====
-- A credential in a text is masked, and keeps only its id.
use go_collector.Base.{
  ℕ, zero, suc, ◌≤◌, Bool, true, false, not, ◌&&◌, ◌||◌, [], ◌∷◌, ◌++◌, ◌≡◌, refl, sym, ap, ◌∙◌,
  Option, none, some, arith, length, length-append, drop, ltb, le→ltb, ◌==◌, and_true, or_false,
  Bool-cases, Option-cases, inl, inr, length-drop,
}
use go_collector.Base.Bytes.{Bytes, codes, has_prefix}
use go_collector.Redact.{
  mask_prefix, credential_byte, run_of, secret_behind, match_credential, replace_credentials,
  credentials,
}
use go_collector.Text.Split.{Free}
use go_collector.Text.Lower.{contains}

abbrev pub run_bytes : Bytes → Bool
run_bytes [] = true
run_bytes (c ∷ s) = credential_byte c && run_bytes s

-- No byte of a run in front.
abbrev pub ends_run : Bytes → Bool
ends_run [] = true
ends_run (c ∷ s) = not (credential_byte c)

run_of-append :
    (run rest : Bytes)
    → run_bytes run ≡ true
    → ends_run rest ≡ true
    → run_of (run ++ rest) ≡ (run, rest)
run_of-append [] [] h e = refl
run_of-append [] (c ∷ s) h e = let off : credential_byte c ≡ false = ground arith in rw off refl
run_of-append (c ∷ run) rest h e =
    let (here, there) = and_true (credential_byte c) (run_bytes run) h in
    rw (here, run_of-append run rest there e) refl

-- token_<id>.<secret>
abbrev pub credential : Bytes → Bytes → Bytes
credential id secret = codes "token_" ++ (id ++ (b'.' ∷ secret))

abbrev pub masked : Bytes → Bytes
masked id = codes "token_" ++ (id ++ (codes "." ++ mask_prefix))

match_credential-credential :
    (id secret post : Bytes)
    → run_bytes id ≡ true
    → 6 ≤ length id
    → run_bytes secret ≡ true
    → 16 ≤ length secret
    → ends_run post ≡ true
    → match_credential (codes "token_" ++ (id ++ (b'.' ∷ (secret ++ post))))
      ≡ some (codes "token_" ++ id, post)
unfolding match_credential
match_credential-credential id secret post i li s ls e =
    rw
      (
        run_of-append id (b'.' ∷ (secret ++ post)) i refl,
        le→ltb (length id) 6 li,
        secret_behind,
        run_of-append secret post s e,
        le→ltb (length secret) 16 ls,
      )
      (ap (λ p. some (codes "token_" ++ p.0, post))
        (run_of-append id (b'.' ∷ (secret ++ post)) i refl))

run_of-length : (s : Bytes) → length (run_of s).1 ≤ length s
run_of-length [] = omega arith
run_of-length (c ∷ s) = elim (Bool-cases (credential_byte c)) [
  | inl inside ↦ rw inside (omega (arith, run_of-length s))
  | inr outside ↦ rw outside (omega arith)
]

abbrev Shorter : ℕ → Option (Bytes × Bytes) → Type 0
Shorter n none = Unit
Shorter n (some (kept, rest)) = length rest ≤ n

secret_behind-Shorter : (n : ℕ) (id s : Bytes) → length s ≤ n → Shorter n (secret_behind id s)
secret_behind-Shorter n id [] h = tt
secret_behind-Shorter n id (c ∷ s) h =
    elim (Bool-cases (not (c == b'.') || ltb (length (run_of s).0) 16)) [
      | inl other ↦ rw (secret_behind, other) tt
      | inr found ↦ rw (secret_behind, found) (omega (arith, run_of-length s))
    ]

match_credential-Shorter : (c : ℕ) (s : Bytes) → Shorter (length s) (match_credential (c ∷ s))
unfolding match_credential
match_credential-Shorter c s =
    let id = (run_of (drop 5 s)).0 in
    let rest = (run_of (drop 5 s)).1 in
    elim (Bool-cases (not (has_prefix (c ∷ s) (codes "token_")) || ltb (length id) 6)) [
      | inl other ↦ rw other tt
      | inr found ↦ rw found (
          secret_behind-Shorter (length s) id rest
            (omega (arith, run_of-length (drop 5 s), length-drop {0} 5 s)))
    ]

-- More fuel than bytes changes nothing.
replace_credentials_fuel :
    (n m : ℕ) (s : Bytes)
    → length s ≤ n
    → length s ≤ m
    → replace_credentials n s ≡ replace_credentials m s
unfolding replace_credentials
replace_credentials_fuel zero zero s h k = refl
replace_credentials_fuel zero (suc m) [] h k = refl
replace_credentials_fuel zero (suc m) (c ∷ s) h k = absurd (omega arith)
replace_credentials_fuel (suc n) zero [] h k = refl
replace_credentials_fuel (suc n) zero (c ∷ s) h k = absurd (omega arith)
replace_credentials_fuel (suc n) (suc m) [] h k = refl
replace_credentials_fuel (suc n) (suc m) (c ∷ s) h k =
    elim (Option-cases (match_credential (c ∷ s))) [
      | inl other ↦
          rw (replace_credentials, other)
            (ap (◌∷◌ c) (replace_credentials_fuel n m s (omega arith) (omega arith)))
      | inr ((kept, rest), found) ↦
          let short : length rest ≤ length s = rw found at (match_credential-Shorter c s) in
          rw (replace_credentials, found)
            (ap (λ t. kept ++ (codes "." ++ (mask_prefix ++ t)))
              (replace_credentials_fuel n m rest (omega arith) (omega arith)))
    ]

-- Text that does not begin as a credential does is passed on.
replace_credentials-Free :
    (n : ℕ) (pre s : Bytes)
    → Free b't' pre
    → length (pre ++ s) ≤ n
    → replace_credentials n (pre ++ s) ≡ pre ++ replace_credentials (length s) s
unfolding replace_credentials
replace_credentials-Free n [] s h k = replace_credentials_fuel n (length s) s k (omega arith)
replace_credentials-Free zero (c ∷ pre) s h k = absurd (omega arith)
replace_credentials-Free (suc n) (c ∷ pre) s h k =
    let elsewhere : match_credential (c ∷ (pre ++ s)) ≡ none =
      unfold match_credential in rw (match_credential, h.0) refl in
    rw (replace_credentials, elsewhere)
      (ap (◌∷◌ c) (replace_credentials-Free n pre s h.1 (omega arith)))

replace_credentials-absent :
    (n : ℕ) (s : Bytes) → contains s (codes "token_") ≡ false → replace_credentials n s ≡ s
unfolding replace_credentials
replace_credentials-absent zero s h = refl
replace_credentials-absent (suc n) [] h = refl
replace_credentials-absent (suc n) (c ∷ s) h =
    let (here, there) =
      or_false (has_prefix (c ∷ s) (codes "token_")) (contains s (codes "token_")) h in
    let elsewhere : match_credential (c ∷ s) ≡ none =
      unfold match_credential in rw (match_credential, here) refl in
    rw (replace_credentials, elsewhere) (ap (◌∷◌ c) (replace_credentials-absent n s there))

credentials-replace : (s : Bytes) → credentials s ≡ replace_credentials (length s) s
unfolding credentials
credentials-replace s = elim (Bool-cases (contains s (codes "token_"))) [
  | inl there ↦ rw there refl
  | inr absent ↦ rw absent (sym (replace_credentials-absent (length s) s absent))
]

replace_credentials_found :
    (n c : ℕ) (s kept rest : Bytes)
    → match_credential (c ∷ s) ≡ some (kept, rest)
    → replace_credentials (suc n) (c ∷ s)
      ≡ kept ++ (codes "." ++ (mask_prefix ++ replace_credentials n rest))
unfolding replace_credentials
replace_credentials_found n c s kept rest found = rw (replace_credentials, found) refl

replace_credentials-credential :
    (id secret post : Bytes)
    → run_bytes id ≡ true
    → 6 ≤ length id
    → run_bytes secret ≡ true
    → 16 ≤ length secret
    → ends_run post ≡ true
    → replace_credentials
        (length (codes "token_" ++ (id ++ (b'.' ∷ (secret ++ post)))))
        (codes "token_" ++ (id ++ (b'.' ∷ (secret ++ post))))
      ≡ (codes "token_" ++ id)
        ++ (codes "." ++ (mask_prefix ++ replace_credentials (length post) post))
replace_credentials-credential id secret post i li s ls e =
    let tail = codes "oken_" ++ (id ++ (b'.' ∷ (secret ++ post))) in
    replace_credentials_found (length tail) b't' tail (codes "token_" ++ id) post
      (match_credential-credential id secret post i li s ls e)
    ∙ ap (λ t. (codes "token_" ++ id) ++ (codes "." ++ (mask_prefix ++ t)))
        (replace_credentials_fuel (length tail) (length post) post
          (omega
            (arith, length-append {0} id (b'.' ∷ (secret ++ post)), length-append {0} secret post))
          (omega arith))

-- A credential whose id has six bytes or more and whose secret sixteen or more is masked wherever it
-- stands behind text without a `t`: the id is kept, no byte of the secret is, and what follows, if it
-- does not go on as the secret does, is treated as a text of its own.
pub credentials-masked :
    (pre id secret post : Bytes)
    → Free b't' pre
    → run_bytes id ≡ true
    → 6 ≤ length id
    → run_bytes secret ≡ true
    → 16 ≤ length secret
    → ends_run post ≡ true
    → credentials (pre ++ (codes "token_" ++ (id ++ (b'.' ∷ (secret ++ post)))))
      ≡ pre ++ ((codes "token_" ++ id) ++ (codes "." ++ (mask_prefix ++ credentials post)))
credentials-masked pre id secret post p i li s ls e =
    let text = codes "token_" ++ (id ++ (b'.' ∷ (secret ++ post))) in
    credentials-replace (pre ++ text)
    ∙ replace_credentials-Free (length (pre ++ text)) pre text p (omega arith)
    ∙ ap (λ t. pre ++ t) (replace_credentials-credential id secret post i li s ls e)
    ∙ ap (λ t. pre ++ ((codes "token_" ++ id) ++ (codes "." ++ (mask_prefix ++ t))))
        (sym (credentials-replace post))
