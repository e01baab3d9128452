-- ===== src/Mounts/Fields.antt =====
-- The fields of a line of /proc/mounts, and the entries of a file of such lines.
use ymir_project.Base.{
  arith, ℕ, zero, suc, ◌+◌, ◌-◌, ◌≤◌, ◌<◌, ◌≡◌, ◌≢◌, refl, sym, ap, subst, ◌∙◌, inl, inr, none,
  some, List, [], ◌∷◌, ◌++◌, map, ◌==◌, ==_ne, length, length-append, length-drop, append_assoc,
  append-nil, take, drop, Bool-cases, Option-cases,
}
use mathlib.Core.Option.{some-injective}
use ymir_project.Host.{Text}
use ymir_project.Buffer.Laws.{NoNul, NoNul-append}
use ymir_project.StringClass.Split.{tokens, tokens_from}
use ymir_project.Mounts.{
  Mount, fgets, reads, up_to_nul, index_of, find_blank, fields_at, entry_of, entries, parse_mounts,
}
use ymir_project.Mounts.Reads.{up_to_nul-NoNul, NoNewline, fgets-line}

drop-drop : (i j : ℕ) (t : Text) → drop j (drop i t) ≡ drop (i + j) t
drop-drop zero j t = let e : zero + j ≡ j = omega arith in ap (λ k. drop k t) (sym e)
drop-drop (suc i) zero [] = let e : suc i + zero ≡ suc (i + zero) = omega arith in rw e refl
drop-drop (suc i) (suc j) [] = let e : suc i + suc j ≡ suc (i + suc j) = omega arith in rw e refl
drop-drop (suc i) j (c ∷ t) =
    let e : suc i + j ≡ suc (i + j) = omega arith in rw e (drop-drop i j t)

-- A text without the delimiter is one token.
tokens_from-none : (x : ℕ) (q t : Text) → index_of x t ≡ none → tokens_from x q t ≡ (q ++ t) ∷ []
unfolding tokens_from index_of
tokens_from-none x q [] e = ap (λ z. z ∷ []) (sym (append-nil q))
tokens_from-none x q (c ∷ t) e = elim (Bool-cases (c == x)) [
  | inl y ↦ cc (rw y at e)
  | inr z ↦ elim (Option-cases (index_of x t)) [
    | inl n ↦
        rw (tokens_from, z)
          (tokens_from-none x (q ++ c ∷ []) t n ∙ ap (λ u. u ∷ []) (append_assoc q (c ∷ []) t))
    | inr there ↦ cc (rw (z, there.1) at e)
  ]
]

-- The first token ends at the first delimiter.
tokens_from-some :
    (x : ℕ) (q t : Text) (i : ℕ)
    → index_of x t ≡ some i
    → tokens_from x q t ≡ (q ++ take i t) ∷ tokens x (drop (suc i) t)
unfolding tokens_from index_of tokens
tokens_from-some x q [] i e = cc
tokens_from-some x q (c ∷ t) i e = elim (Bool-cases (c == x)) [
  | inl y ↦
      let f : 0 ≡ i = some-injective 0 i (rw y at e) in
      subst (λ k. tokens_from x q (c ∷ t) ≡ (q ++ take k (c ∷ t)) ∷ tokens_from x [] (drop k t)) f
        (rw (tokens_from, y, append-nil) refl)
  | inr z ↦ elim (Option-cases (index_of x t)) [
    | inl n ↦ cc (rw (z, n) at e)
    | inr (k, there) ↦
        let f : suc k ≡ i = some-injective (suc k) i (rw (z, there) at e) in
        subst (λ m. tokens_from x q (c ∷ t) ≡ (q ++ take m (c ∷ t)) ∷ tokens_from x [] (drop m t)) f
          (rw (tokens_from, z)
            (tokens_from-some x (q ++ c ∷ []) t k there
              ∙ ap (λ u. u ∷ tokens_from x [] (drop (suc k) t))
                  (append_assoc q (c ∷ []) (take k t))))
  ]
]

index_of-length : (x : ℕ) (t : Text) (i : ℕ) → index_of x t ≡ some i → i < length t
unfolding index_of
index_of-length x [] i e = cc
index_of-length x (c ∷ t) i e = elim (Bool-cases (c == x)) [
  | inl y ↦ let f : 0 ≡ i = some-injective 0 i (rw y at e) in omega arith
  | inr z ↦ elim (Option-cases (index_of x t)) [
    | inl n ↦ cc (rw (z, n) at e)
    | inr (k, there) ↦
        let f : suc k ≡ i = some-injective (suc k) i (rw (z, there) at e) in
        omega (arith, index_of-length x t k there)
  ]
]

-- With enough fuel the loop over the blanks gives the tokens between them.
pub fields_at-tokens :
    (fuel pos : ℕ) (line : Text)
    → length (drop pos line) < fuel
    → fields_at fuel pos line ≡ tokens 32 (drop pos line)
unfolding fields_at find_blank tokens
fields_at-tokens zero pos line lt = absurd (omega arith)
fields_at-tokens (suc fuel) pos line lt = elim (Option-cases (index_of 32 (drop pos line))) [
  | inl e ↦ rw (fields_at, e) (sym (tokens_from-none 32 [] (drop pos line) e))
  | inr there ↦
      let i = there.0 in
      let back : pos + i - pos ≡ i = omega arith in
      let on : drop (suc i) (drop pos line) ≡ drop (suc (pos + i)) line =
        drop-drop pos (suc i) line
        ∙ (let e : pos + suc i ≡ suc (pos + i) = omega arith in ap (λ k. drop k line) e) in
      rw (fields_at, there.1, back)
        (ap (◌∷◌ (take i (drop pos line))) (
            fields_at-tokens fuel (suc (pos + i)) line (
              omega (
                arith,
                index_of-length 32 (drop pos line) i there.1,
                length-drop pos line,
                length-drop (suc (pos + i)) line,
              ))
            ∙ ap (tokens 32) (sym on))
          ∙ sym (tokens_from-some 32 [] (drop pos line) i there.1))
]

-- A line of /proc/mounts: four fields and a rest, between blanks.
abbrev pub line_of : Mount → Text → Text
line_of m rest =
    m.device ++ 32 ∷ (m.mount_point ++ 32 ∷ (m.fs_type ++ 32 ∷ (m.options ++ 32 ∷ rest)))

-- No byte of the text is a blank.
abbrev pub NoBlank : Text → Type 0
NoBlank [] = Unit {0}
NoBlank (c ∷ t) = (c ≢ 32) × NoBlank t

tokens_from-append :
    (q t u : Text) → NoBlank t → tokens_from 32 q (t ++ 32 ∷ u) ≡ (q ++ t) ∷ tokens_from 32 [] u
unfolding tokens_from
tokens_from-append q [] u h = ap (λ z. z ∷ tokens_from 32 [] u) (sym (append-nil q))
tokens_from-append q (c ∷ t) u h =
    rw (tokens_from, ==_ne c 32 h.0)
      (tokens_from-append (q ++ c ∷ []) t u h.1
        ∙ ap (λ z. z ∷ tokens_from 32 [] u) (append_assoc q (c ∷ []) t))

abbrev pub PlainFields : Mount → Type 0
PlainFields m = NoBlank m.device × NoBlank m.mount_point × NoBlank m.fs_type × NoBlank m.options

entry_of-line_of :
    (m : Mount) (rest : Text) → PlainFields m → entry_of (tokens 32 (line_of m rest)) ≡ m ∷ []
unfolding tokens entry_of
entry_of-line_of m rest h =
    rw
      (
        tokens_from-append [] m.device
            (m.mount_point ++ 32 ∷ (m.fs_type ++ 32 ∷ (m.options ++ 32 ∷ rest))) h.0,
        tokens_from-append [] m.mount_point (m.fs_type ++ 32 ∷ (m.options ++ 32 ∷ rest)) h.1,
        tokens_from-append [] m.fs_type (m.options ++ 32 ∷ rest) h.2,
        tokens_from-append [] m.options rest h.3,
      )
      refl

-- The lines of a file: each has plain fields, no terminator and no newline of its own, and fits.
abbrev pub Printed : List (Mount × Text) → Type 0
Printed [] = Unit {0}
Printed ((m, rest) ∷ ms) =
    PlainFields m
    × NoNul (line_of m rest)
    × NoNewline (line_of m rest)
    × (length (line_of m rest) < 1023)
    × Printed ms

abbrev pub file_of : List (Mount × Text) → Text
file_of [] = []
file_of ((m, rest) ∷ ms) = line_of m rest ++ 10 ∷ file_of ms

reads-step :
    (fuel room : ℕ) (t : Text)
    → 0 < length t
    → reads (suc fuel) room t ≡ (fgets room t).0 ∷ reads fuel room (fgets room t).1
unfolding reads
reads-step fuel room [] lt = absurd (omega arith)
reads-step fuel room (c ∷ t) lt = refl

line_of-append : (m : Mount) (rest u : Text) → line_of m rest ++ u ≡ line_of m (rest ++ u)
line_of-append m rest u =
    append_assoc m.device
      (32 ∷ (m.mount_point ++ 32 ∷ (m.fs_type ++ 32 ∷ (m.options ++ 32 ∷ rest)))) u
    ∙ ap (λ z. m.device ++ 32 ∷ z)
        (append_assoc m.mount_point (32 ∷ (m.fs_type ++ 32 ∷ (m.options ++ 32 ∷ rest))) u
          ∙ ap (λ z. m.mount_point ++ 32 ∷ z)
              (append_assoc m.fs_type (32 ∷ (m.options ++ 32 ∷ rest)) u
                ∙ ap (λ z. m.fs_type ++ 32 ∷ z) (append_assoc m.options (32 ∷ rest) u)))

-- What one buffer adds.
entry_of-buffer :
    (m : Mount) (rest : Text)
    → PlainFields m
    → NoNul (line_of m rest)
    → (let line = up_to_nul (line_of m rest ++ 10 ∷ []) in
        entry_of (fields_at (suc (length line)) 0 line))
      ≡ m ∷ []
entry_of-buffer m rest h clean =
    let buf = line_of m rest ++ 10 ∷ [] in
    let whole : up_to_nul buf ≡ buf =
      up_to_nul-NoNul buf (NoNul-append (line_of m rest) (10 ∷ []) clean (omega arith, tt)) in
    ap (λ line. entry_of (fields_at (suc (length line)) 0 line)) whole
    ∙ ap entry_of (fields_at-tokens (suc (length buf)) 0 buf (omega arith))
    ∙ ap (λ line. entry_of (tokens 32 line)) (line_of-append m rest (10 ∷ []))
    ∙ entry_of-line_of m (rest ++ 10 ∷ []) h

entries-reads :
    (fuel : ℕ) (ms : List (Mount × Text))
    → Printed ms
    → length (file_of ms) ≤ fuel
    → entries (reads fuel 1023 (file_of ms)) ≡ map (λ x. x.0) ms
unfolding entries reads
entries-reads zero [] h le = refl
entries-reads (suc fuel) [] h le = refl
entries-reads zero ((m, rest) ∷ ms) h le =
    absurd (omega (arith, length-append (line_of m rest) (10 ∷ file_of ms)))
entries-reads (suc fuel) ((m, rest) ∷ ms) h le =
    let line = line_of m rest in
    let t = line ++ 10 ∷ file_of ms in
    let long = length-append line (10 ∷ file_of ms) in
    let read : fgets 1023 t ≡ (line ++ 10 ∷ [], file_of ms) =
      fgets-line 1023 line (file_of ms) h.2 h.3 in
    ap entries (reads-step fuel 1023 t (omega (arith, long)))
    ∙ ap (λ (r : Text × Text). entries (r.0 ∷ reads fuel 1023 r.1)) read
    ∙ ap (λ e. e ++ entries (reads fuel 1023 (file_of ms))) (entry_of-buffer m rest h.0 h.1)
    ∙ ap (◌∷◌ m) (entries-reads fuel ms h.4 (omega (arith, long)))

-- parseProcMounts of a file of lines that fit into its buffer, whose fields have no blank, terminator or
-- newline, gives exactly the entries of the lines, in their order.
pub parse_mounts-file_of :
    (ms : List (Mount × Text)) → Printed ms → parse_mounts (file_of ms) ≡ map (λ x. x.0) ms
unfolding parse_mounts
parse_mounts-file_of ms h = entries-reads (length (file_of ms)) ms h (omega arith)
