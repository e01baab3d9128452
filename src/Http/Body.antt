-- ===== src/Http/Body.antt =====
-- What a handler reads as the body of its request: the static buffer of dispatch_handler.
use ymir_project.Base.{
  ℕ, zero, suc, ◌+◌, ◌-◌, ◌≤◌, ◌≡◌, refl, sym, ap, ◌∙◌, inl, inr, none, some, [], ◌∷◌, ◌++◌, map,
  arith, append-nil, Bool-cases, length, drop, leb, take_all, ==_ne, length-append, length-map,
}
use ymir_project.Buffer.{Cell, Block, ◌>>=◌, cstr, fresh, strncpy, write_at, cstr_upto}
use ymir_project.Buffer.Laws.{
  NoNul, NoNul-append, NoNul-drop, cstr-terminated, strncpy_room, cstr_upto-prefix,
}
use ymir_project.Host.{Text}
use ymir_project.Http.{store_upload, request_body, new_buffer}

-- The text of a block that holds one is its part up to the terminator, wherever it is split.
drop_text :
    (n : ℕ) (old : Text) (rest : Block)
    → n ≤ length old
    → drop n (map some old ++ some 0 ∷ rest) ≡ map some (drop n old) ++ some 0 ∷ rest
drop_text zero old rest le = refl
drop_text (suc n) [] rest le = absurd (omega arith)
drop_text (suc n) (c ∷ old) rest le = drop_text n old rest (omega arith)

map-append : (t u : Text) (b : Block) → map some t ++ (map some u ++ b) ≡ map some (t ++ u) ++ b
map-append [] u b = refl
map-append (c ∷ t) u b = ap (◌∷◌ (some c)) (map-append t u b)

-- A body that is no longer than the text that the buffer holds from before is read with the rest of
-- that text behind it, whatever stands behind its terminator.
pub request_body-store_upload :
    (old t : Text) (rest : Block)
    → NoNul old
    → NoNul t
    → length t ≤ length old
    → store_upload t (map some old ++ some 0 ∷ rest) >>= request_body
      ≡ some (t ++ drop (length t) old)
unfolding store_upload request_body
request_body-store_upload old t rest clean fine le =
    ap (λ o. o >>= request_body)
      (strncpy_room t (length t) (map some t) [] (map some old ++ some 0 ∷ rest) fine
        (sym (append-nil (map some t))) (omega arith)
        (omega (
          arith,
          length-append {0} (map some old) (some 0 ∷ rest),
          length-map {0, 0} {B = Cell} some old,
        )))
    ∙ ap (λ u. cstr (map some u ++ drop (length t) (map some old ++ some 0 ∷ rest)))
        (take_all (length t) t (omega arith))
    ∙ ap (λ u. cstr (map some t ++ u)) (drop_text (length t) old rest le)
    ∙ ap cstr (map-append t (drop (length t) old) (some 0 ∷ rest))
    ∙ cstr-terminated (t ++ drop (length t) old) rest
        (NoNul-append t (drop (length t) old) fine (NoNul-drop (length t) old clean))

-- Indeterminate bytes, and then the end of the block.
cstr-fresh : (t : Text) (n : ℕ) → NoNul t → cstr (map some t ++ fresh n) ≡ none
unfolding cstr fresh
cstr-fresh [] zero h = refl
cstr-fresh [] (suc n) h = refl
cstr-fresh (c ∷ t) n h = rw (==_ne c 0 (ground arith), cstr-fresh t n h.1) refl

drop-fresh : (k n : ℕ) → drop k (fresh n) ≡ fresh (n - k)
unfolding fresh
drop-fresh zero n = let e : n ≡ n - zero = omega arith in ap fresh e
drop-fresh (suc k) zero = let e : zero ≡ zero - suc k = omega arith in ap fresh e
drop-fresh (suc k) (suc n) =
    drop-fresh k n ∙ (let e : n - k ≡ suc n - suc k = omega arith in ap fresh e)

cstr-write : (t : Text) (n : ℕ) → NoNul t → (write_at 0 (map some t) (fresh n) >>= cstr) ≡ none
unfolding write_at
cstr-write t n fine =
    elim (Bool-cases (leb (0 + length (map {0, 0} {B = Cell} some t)) (length (fresh n)))) [
      | inl y ↦
          rw (y, drop-fresh (0 + length (map {0, 0} {B = Cell} some t)) n)
            (cstr-fresh t (n - (0 + length (map {0, 0} {B = Cell} some t))) fine)
      | inr z ↦ rw z refl
    ]

-- The first body is not read as a text: it is too long for the buffer, or no terminator follows it.
pub request_body-new_buffer :
    (t : Text) → NoNul t → store_upload t new_buffer >>= request_body ≡ none
unfolding store_upload request_body new_buffer strncpy
request_body-new_buffer t fine =
    let whole : cstr_upto (length t) (map some t) ≡ some t =
      ap (cstr_upto (length t)) (sym (append-nil (map some t)))
      ∙ cstr_upto-prefix t (length t) [] fine (omega arith)
      ∙ ap some (take_all (length t) t (omega arith)) in
    let none_left : length t - length t ≡ 0 = omega arith in
    rw (strncpy, whole, none_left, append-nil) (cstr-write t 500 fine)
