-- ===== src/Http/Recorder/Captured.antt =====
-- What passes through a response recorder, and what it keeps.
use go_collector.Base.{
  ℕ, zero, suc, ◌-◌, ◌≤◌, ◌<◌, Bool, true, false, not, ◌&&◌, List, [], ◌∷◌, ◌++◌, ◌≡◌, refl, sym,
  ap, ◌∙◌, arith, length, length-append, length-take, take, take_all, append-nil, append_assoc, ltb,
  le→ltb, Bool-cases, inl, inr,
}
use go_collector.Base.Bytes.{Bytes, codes}
use go_collector.Base.Int.{ℤ, pos, pos_part, ltb_ℤ}
use go_collector.Http.Recorder.{
  Down, header, data_written, ResponseRecorder, new_recorder, write_header, cap_of, captures,
  keep_body, write, Act, set_header, writes_header, writes, act, serve,
}
use go_collector.Http.{Headers, get_header, body_cap_bytes}

-- The bytes of a response as the application writes them, and as they pass on.
abbrev pub written : List Act → Bytes
written [] = []
written (set_header _ _ ∷ as') = written as'
written (writes_header _ ∷ as') = written as'
written (writes b ∷ as') = b ++ written as'

abbrev pub passed : List Down → Bytes
passed [] = []
passed (header _ ∷ ds) = passed ds
passed (data_written b ∷ ds) = b ++ passed ds

passed-append : (ds es : List Down) → passed (ds ++ es) ≡ passed ds ++ passed es
passed-append [] es = refl
passed-append (header _ ∷ ds) es = passed-append ds es
passed-append (data_written b ∷ ds) es =
    ap (b ++◌) (passed-append ds es) ∙ sym (append_assoc b (passed ds) (passed es))

write_header-passed :
    (code : ℤ) (r : ResponseRecorder) → passed (write_header code r).down ≡ passed r.down
unfolding write_header
write_header-passed code r = elim (Bool-cases r.wrote_header) [
  | inl again ↦ rw again refl
  | inr first ↦ rw first (passed-append r.down _ ∙ append-nil (passed r.down))
]

keep_body-down : (b : Bytes) (r : ResponseRecorder) → (keep_body b r).down ≡ r.down
unfolding keep_body
keep_body-down b r = elim (Bool-cases (not (captures r))) [
  | inl off ↦ rw off refl
  | inr on ↦ elim (Bool-cases (ltb 0 (cap_of r - length r.body))) [
    | inr full ↦ rw (on, full) refl
    | inl room ↦ elim (Bool-cases (ltb (cap_of r - length r.body) (length b))) [
      | inl over ↦ rw (on, room, over) refl
      | inr fits ↦ rw (on, room, fits) refl
    ]
  ]
]

act-passed :
    (a : Act) (r : ResponseRecorder) → passed (act a r).down ≡ passed r.down ++ written (a ∷ [])
unfolding write
act-passed (set_header k v) r = sym (append-nil (passed r.down))
act-passed (writes_header code) r = write_header-passed code r ∙ sym (append-nil (passed r.down))
act-passed (writes b) r =
    let r' = write_header (pos 200) r in
    passed-append (keep_body b r').down _
    ∙ ap (λ d. passed d ++ (b ++ [])) (keep_body-down b r')
    ∙ ap (λ d. d ++ (b ++ [])) (write_header-passed (pos 200) r)

written-cons : (a : Act) (more : List Act) → written (a ∷ more) ≡ written (a ∷ []) ++ written more
written-cons (set_header _ _) more = refl
written-cons (writes_header _) more = refl
written-cons (writes b) more = rw append-nil refl

pub serve-passed :
    (as' : List Act) (r : ResponseRecorder)
    → passed (serve as' r).down ≡ passed r.down ++ written as'
unfolding serve
serve-passed [] r = sym (append-nil (passed r.down))
serve-passed (a ∷ more) r =
    serve-passed more (act a r)
    ∙ ap (λ d. d ++ written more) (act-passed a r)
    ∙ append_assoc (passed r.down) (written (a ∷ [])) (written more)
    ∙ ap (passed r.down ++◌) (sym (written-cons a more))

-- No header is set among the acts.
abbrev pub steady : List Act → Bool
steady [] = true
steady (set_header _ _ ∷ _) = false
steady (writes_header _ ∷ as') = steady as'
steady (writes _ ∷ as') = steady as'

take_none : (n : ℕ) (xs : Bytes) → n ≡ 0 → take n xs ≡ []
take_none zero xs e = refl
take_none (suc n) xs e = absurd (omega arith)

take-append : (n : ℕ) (xs ys : Bytes) → take n (xs ++ ys) ≡ take n xs ++ take (n - length xs) ys
take-append zero xs ys = rw (take_none (0 - length xs) ys (omega arith)) refl
take-append (suc n) [] ys = let e : suc n ≡ suc n - 0 = omega arith in ap (λ k. take k ys) e
take-append (suc n) (x ∷ xs) ys =
    ap (x ∷◌) (take-append n xs ys ∙ ap (λ k. take n xs ++ take k ys) (omega arith))

-- `seen` was written so far, and `n` is the cap.
abbrev IsKept : ℕ → Bytes → ResponseRecorder → Type 0
IsKept n seen r =
    (r.body ≡ take n seen)
    × ((ltb n (length seen) && not r.body_truncated) ≡ false)
    × (captures r ≡ true)
    × (cap_of r ≡ n)

write_header-IsKept :
    (code : ℤ) (n : ℕ) (seen : Bytes) (r : ResponseRecorder)
    → IsKept n seen r
    → IsKept n seen (write_header code r)
unfolding write_header
write_header-IsKept code n seen r k = elim (Bool-cases r.wrote_header) [
  | inl again ↦ rw (write_header, again) k
  | inr first ↦ rw (write_header, first) k
]

grown :
    (n : ℕ) (seen b : Bytes) (r : ResponseRecorder)
    → IsKept n seen r
    → r.body ++ take (cap_of r - length r.body) b ≡ take n (seen ++ b)
grown n seen b r (body, _, _, cap) =
    let room : cap_of r - length r.body ≡ n - length seen =
      omega (arith, cap, ap length body, length-take {0} n seen) in
    ap (λ k. r.body ++ take k b) room
    ∙ ap (λ x. x ++ take (n - length seen) b) body
    ∙ sym (take-append n seen b)

fits_in :
    (n : ℕ) (seen b : Bytes) (r : ResponseRecorder)
    → IsKept n seen r
    → 0 < cap_of r - length r.body
    → length b ≤ cap_of r - length r.body
    → (ltb n (length (seen ++ b)) && not r.body_truncated) ≡ false
fits_in n seen b r (body, cut, on, cap) room fits =
    let small : length (seen ++ b) ≤ n =
      omega (arith, cap, ap length body, length-take {0} n seen, length-append {0} seen b) in
    rw (le→ltb n (length (seen ++ b)) small) refl

and_false : (b : Bool) → (b && false) ≡ false
and_false b = ground arith

keep_body-IsKept :
    (n : ℕ) (seen b : Bytes) (r : ResponseRecorder)
    → IsKept n seen r
    → IsKept n (seen ++ b) (keep_body b r)
unfolding keep_body
keep_body-IsKept n seen b r k =
    let (body, cut, on, cap) = k in
    elim (Bool-cases (ltb 0 (cap_of r - length r.body))) [
      | inr full ↦
          rw (keep_body, on, full)
            (
              sym (append-nil r.body)
                  ∙ ap (r.body ++◌) (sym (take_none _ b (ground arith)))
                  ∙ grown n seen b r k,
              and_false (ltb n (length (seen ++ b))),
              on,
              cap,
            )
      | inl room ↦ elim (Bool-cases (ltb (cap_of r - length r.body) (length b))) [
        | inl over ↦
            rw (keep_body, on, room, over)
              (grown n seen b r k, and_false (ltb n (length (seen ++ b))), on, cap)
        | inr fits ↦
            rw (keep_body, on, room, fits)
              (
                ap (r.body ++◌) (sym (take_all (cap_of r - length r.body) b (ground arith)))
                    ∙ grown n seen b r k,
                fits_in n seen b r k (ground arith) (ground arith),
                on,
                cap,
              )
      ]
    ]

serve-IsKept :
    (n : ℕ) (as' : List Act) (seen : Bytes) (r : ResponseRecorder)
    → steady as' ≡ true
    → IsKept n seen r
    → IsKept n (seen ++ written as') (serve as' r)
unfolding serve write
serve-IsKept n [] seen r calm k = rw append-nil k
serve-IsKept n (set_header _ _ ∷ more) seen r calm k = absurd (ground arith)
serve-IsKept n (writes_header code ∷ more) seen r calm k =
    serve-IsKept n more seen _ calm (write_header-IsKept code n seen r k)
serve-IsKept n (writes b ∷ more) seen r calm k = rw (sym (append_assoc seen b (written more))) (
    serve-IsKept n more (seen ++ b) (write b r) calm
      (keep_body-IsKept n seen b _ (write_header-IsKept (pos 200) n seen r k)))

take_nil : (n : ℕ) → take {A = ℕ} n [] ≡ []
take_nil zero = refl
take_nil (suc n) = refl

empty_cut : (n : ℕ) → (ltb n 0 && true) ≡ false
empty_cut n = ground arith

-- A response of which bodies are captured, whose application sets no header once it writes, passes on
-- all its bytes in order, keeps as many of them as the cap of its content type allows, from the first,
-- and is marked as truncated whenever that leaves some out.
pub serve-captured :
    (headers : Headers) (max_body : ℤ) (as' : List Act)
    → ltb_ℤ (pos 0) max_body ≡ true
    → steady as' ≡ true
    → let n = pos_part (body_cap_bytes (get_header (codes "Content-Type") headers) max_body) in
      let r = serve as' (new_recorder headers true max_body) in
      (passed r.down ≡ written as')
      × (r.body ≡ take n (written as'))
      × ((ltb n (length (written as')) && not r.body_truncated) ≡ false)
serve-captured headers max_body as' some_cap calm =
    let r = new_recorder headers true max_body in
    let n = cap_of r in
    let (body, cut, _, _) =
      serve-IsKept n as' [] r calm (sym (take_nil n), empty_cut n, rw some_cap refl, refl) in
    (serve-passed as' r, body, cut)
