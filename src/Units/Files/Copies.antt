-- ===== src/Units/Files/Copies.antt =====
-- copy_file ends, and closes what it opened.
use ymir_project.Base.{
  arith, ℕ, zero, suc, ◌-◌, ◌≤◌, ◌<◌, ◌≡◌, ◌≢◌, refl, sym, ap, ◌∙◌, inl, inr, Bool, Option, none,
  some, ◌∷◌, ltb, not, Bool-cases,
}
use ymir_project.Host.{
  M, ℤ, pos, negsuc, is_minus_one, is_negative, Text, text, World, Trace, open_path, file_size,
  send_file,
}
use ymir_project.Host.Laws.{Returns, Returns-bind, Returns-map, opened, closed}
use ymir_project.Units.Files.{when_sent, send_loop, size_of, copy_contents, copy_to, copy_file}

-- sendfile sends no more than it was asked to, and open answers -1 when it fails.
abbrev pub Documented : World → Type 0
Documented w =
    ((tr : Trace) (target source : ℤ) (count n : ℕ)
      → (w tr (send_file target source count)).number ≡ pos n
      → n ≤ count)
    × ((tr : Trace) (path mode : Text)
        → is_negative (w tr (open_path path mode)).number
          ≡ is_minus_one (w tr (open_path path mode)).number)

abbrev Sent : Trace → Option ℤ → Trace → Type 0
Sent tr o u = (o ≢ none) × (opened u ≡ opened tr) × (closed u ≡ closed tr)

when_sent-Returns :
    (P : Option ℤ → Trace → Type 0) (again : ℕ → M (Option ℤ)) (z : ℤ) (w : World) (u : Trace)
    → ((n : ℕ) → P (some (pos n)) u × P (some (negsuc n)) u)
    → ((n : ℕ) → z ≡ pos n → 0 < n → Returns P (again n w u))
    → Returns P (when_sent again z w u)
unfolding when_sent
when_sent-Returns P again (negsuc n) w u stop next = (stop n).1
when_sent-Returns P again (pos n) w u stop next = elim (Bool-cases (ltb 0 n)) [
  | inl y ↦ rw (when_sent, y) (next n refl (ground (arith, y)))
  | inr z ↦ rw (when_sent, z) (stop n).0
]

send_loop-Sent :
    (fuel : ℕ) (target source : ℤ) (left : ℕ) (w : World) (tr : Trace)
    → Documented w
    → left < fuel
    → Returns (Sent tr) (send_loop fuel target source left w tr)
unfolding send_loop
send_loop-Sent zero target source left w tr doc lt = absurd (omega arith)
send_loop-Sent (suc fuel) target source left w tr doc lt =
    let c = send_file target source left in
    let u : Trace = (c, w tr c) ∷ tr in
    when_sent-Returns (Sent tr) (λ n. send_loop fuel target source (left - n)) (w tr c).number w u
      (λ n. (((λ z. cc), refl, refl), ((λ z. cc), refl, refl)))
      (λ n e some_sent.
        let within : n ≤ left = doc.0 tr target source left n e in
        send_loop-Sent fuel target source (left - n) w u doc (omega arith))

-- Both descriptors are closed behind the loop, which ends.
copy_contents-Closed :
    (target source : ℤ) (size : ℕ) (w : World) (tr : Trace)
    → Documented w
    → Returns
        (λ o u. (o ≢ none) × (opened u ≡ opened tr) × (closed u ≡ target ∷ source ∷ closed tr))
        (copy_contents target source size w tr)
unfolding copy_contents
copy_contents-Closed target source size w tr doc =
    Returns-bind _ _ w (send_loop (suc size) target source size w tr) _
      (send_loop-Sent (suc size) target source size w tr doc (omega arith))
      (λ o u k. (answered o k.0, k.1, ap (λ z. target ∷ source ∷ z) k.2))
  where
    answered :
        (o : Option ℤ)
        → o ≢ none
        → (elim o as (λ _. Option Bool) [ none ↦ none | some n ↦ some (not (is_minus_one n)) ])
          ≢ none
    answered none ne = absurd (ne refl)
    answered (some n) ne = λ z. cc

copy_to-Closed :
    (dst : Text) (source : ℤ) (size : Option ℕ) (w : World) (tr : Trace)
    → Documented w
    → opened tr ≡ source ∷ closed tr
    → Returns (λ o u. (o ≢ none) × (opened u ≡ closed u)) (copy_to dst source size w tr)
unfolding copy_to
copy_to-Closed dst source none w tr doc both = ((λ z. cc), both)
copy_to-Closed dst source (some size) w tr doc both =
    let p = open_path dst (text "O_WRONLY|O_CREAT|O_TRUNC") in
    let target = (w tr p).number in
    let v : Trace = (p, w tr p) ∷ tr in
    let opens = doc.1 tr dst (text "O_WRONLY|O_CREAT|O_TRUNC") in
    elim (Bool-cases (is_minus_one target)) [
      | inl y ↦
          let same : opened v ≡ opened tr = rw (opens, y) refl in
          rw (copy_to, y) ((λ z. cc), same ∙ both)
      | inr m ↦
          let got : opened v ≡ target ∷ opened tr = rw (opens, m) refl in
          rw (copy_to, m)
            (Returns-map _ _ (copy_contents target source size w v)
              (copy_contents-Closed target source size w v doc)
              (λ r x k. (k.0, k.1 ∙ got ∙ ap (◌∷◌ target) both ∙ sym k.2)))
    ]

-- When sendfile sends no more than it was asked to, copy_file ends after at most as many calls of it as
-- the file has bytes, plus one, and it has closed exactly the descriptors that it opened, on every
-- branch.
pub copy_file-Closed :
    (src dst : Text) (w : World) (tr : Trace)
    → Documented w
    → opened tr ≡ closed tr
    → Returns (λ o u. (o ≢ none) × (opened u ≡ closed u)) (copy_file src dst w tr)
unfolding copy_file
copy_file-Closed src dst w tr doc even =
    let o = open_path src (text "O_RDONLY") in
    let source = (w tr o).number in
    let t : Trace = (o, w tr o) ∷ tr in
    let s = file_size source in
    let opens = doc.1 tr src (text "O_RDONLY") in
    elim (Bool-cases (is_minus_one source)) [
      | inl y ↦
          let same : opened t ≡ opened tr = rw (opens, y) refl in
          rw (copy_file, y) ((λ z. cc), same ∙ even)
      | inr n ↦
          let got : opened t ≡ source ∷ opened tr = rw (opens, n) refl in
          rw (copy_file, n)
            (copy_to-Closed dst source (size_of (w t s).number) w ((s, w t s) ∷ t) doc
              (got ∙ ap (◌∷◌ source) even))
    ]
