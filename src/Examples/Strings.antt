-- ===== src/Examples/Strings.antt =====
-- The theorems on lxcd::string at concrete texts.
use ymir_project.Base.{
  ℕ, ◌+◌, ◌≡◌, ◌↔◌, inr, refl, true, none, some, List, [], ◌∷◌, ◌++◌, map, arith, take, drop,
}
use ymir_project.Buffer.{terminated, cstr}
use ymir_project.Buffer.Laws.{NoNul}
use ymir_project.StringClass.{CxxString, cxx_string, split, erase, eq, text_eq}
use ymir_project.StringClass.Compare.{eq_iff}
use ymir_project.StringClass.Represents.{Represents, Stands}
use ymir_project.StringClass.Slices.{exact, erase-Stands}
use ymir_project.StringClass.Split.{split-join, AllAvoid, join}

-- "a,bc" and "de", with one spare byte behind the first.
abbrev list_text : List ℕ
list_text = 97 ∷ 44 ∷ 98 ∷ 99 ∷ []

abbrev word : List ℕ
word = 100 ∷ 101 ∷ []

abbrev list_string : CxxString
list_string = cxx_string (map some list_text ++ some 0 ∷ none ∷ []) 4

abbrev word_string : CxxString
word_string = cxx_string (terminated word) 2

list_clean : NoNul list_text
list_clean = (omega arith, (omega arith, (omega arith, (omega arith, tt))))

word_clean : NoNul word
word_clean = (omega arith, (omega arith, tt))

list_string-Represents : Represents list_string list_text
list_string-Represents = record {
  rest = none ∷ [];
  layout = refl;
  sized = refl;
  clean = list_clean;
}

word_string-Represents : Represents word_string word
word_string-Represents = record { rest = []; layout = refl; sized = refl; clean = word_clean }

word_bytes : cstr (terminated word) ≡ some word
unfolding cstr
word_bytes = refl

split-join_example :
    (ts : List (List ℕ)) × (split list_string 44 ≡ some (map exact ts))
    × AllAvoid 44 ts
    × (join 44 ts ≡ list_text)
split-join_example = split-join list_string list_text 44 list_string-Represents

erase-Stands_example : Stands (take 1 list_text ++ drop (1 + 2) list_text) (erase list_string 1 2)
erase-Stands_example =
    erase-Stands list_string list_text 1 2 list_string-Represents (omega arith) (inr (omega arith))

eq_iff_example :
    (eq list_string word_string ≡ some (text_eq list_text word))
    × ((text_eq list_text word ≡ true) ↔ (list_text ≡ word))
eq_iff_example =
    eq_iff list_string word_string list_text word list_string-Represents word_string-Represents
