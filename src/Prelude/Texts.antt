-- ===== src/Prelude/Texts.antt =====
-- Python's texts: `text[:n]`, `len`, `<=` and `sorted`.
use Prim.Native.Nat.{ℕ, zero, suc}
use Prim.Native.String.{String, compare}
use mathlib.Core.Bool.{Bool, ◌||◌}
use mathlib.Core.List.{List, [], ◌∷◌}
use text.Mathlib.Text.{is_le, ◌==◌ as str_eq}
use slot.Prelude.Tests.{if◌then◌else◌}

abbrev pub take_text : ℕ → String → String
take_text zero s = String.[]
take_text (suc n) String.[] = String.[]
take_text (suc n) (String.◌∷◌ c s) = String.◌∷◌ c (take_text n s)

-- Python counts characters.
abbrev pub text_length : String → ℕ
text_length String.[] = 0
text_length (String.◌∷◌ c s) = suc (text_length s)

abbrev pub text_leb : String → String → Bool
text_leb s t = is_le (compare s t)

abbrev pub insert_text : String → List String → List String
insert_text s [] = s ∷ []
insert_text s (t ∷ ts) =
    let rest = t ∷ ts in
    let later = t ∷ insert_text s ts in if text_leb s t then s ∷ rest else later

abbrev pub sort_texts : List String → List String
sort_texts [] = []
sort_texts (s ∷ ss) = insert_text s (sort_texts ss)

-- `text.split(separator)` for a separator of one character.
abbrev pub put_first : String → List String → List String
put_first c [] = c ∷ []
put_first (String.◌∷◌ c String.[]) (s ∷ ss) = String.◌∷◌ c s ∷ ss
put_first _ ss = ss

abbrev pub split_on : String → String → List String
split_on separator String.[] = "" ∷ []
split_on separator (String.◌∷◌ c s) =
    let rest = split_on separator s in
    let first = String.◌∷◌ c String.[] in
    if str_eq first separator then "" ∷ rest else put_first first rest

-- `text.endswith(suffix)`
abbrev pub ends_with : String → String → Bool
ends_with String.[] suffix = str_eq "" suffix
ends_with (String.◌∷◌ c s) suffix =
    let later = ends_with s suffix in str_eq (String.◌∷◌ c s) suffix || later

-- `text.removesuffix(suffix)` of a suffix that is not empty.
abbrev pub remove_suffix : String → String → String
remove_suffix suffix String.[] = ""
remove_suffix suffix (String.◌∷◌ c s) =
    let rest = String.◌∷◌ c (remove_suffix suffix s) in
    if str_eq (String.◌∷◌ c s) suffix then "" else rest

-- `text[n:]`
abbrev pub drop_text : ℕ → String → String
drop_text zero s = s
drop_text (suc n) String.[] = String.[]
drop_text (suc n) (String.◌∷◌ c s) = drop_text n s
