-- ===== src/Text/Split.antt =====
-- What cutting a text at a separator gives, at the front and at the back.
use zaku.Prelude.{
  ℕ, ◌≡◌, refl, ap, true, false, none, some, [], ◌∷◌, ◌++◌, arith, ◌==◌, ==_self, length, All,
  Option-cases,
}
use zaku.Text.{Str, split_once, rsplit_once, rfind, truncate, str_eq, split}

-- No character of the text is the separator.
abbrev pub Lacks : ℕ → Str → Type 0
Lacks sep = All (λ c. (c == sep) ≡ false)

pub split_once-Lacks : (sep : ℕ) (s : Str) → Lacks sep s → split_once sep s ≡ none
split_once-Lacks sep [] h = refl
split_once-Lacks sep (c ∷ s) h = rw (h.0, split_once-Lacks sep s h.1)

pub split_once-append :
    (sep : ℕ) (a b : Str) → Lacks sep a → split_once sep (a ++ sep ∷ b) ≡ some (a, b)
split_once-append sep [] b h = rw (==_self sep)
split_once-append sep (c ∷ a) b h = rw (h.0, split_once-append sep a b h.1)

pub Lacks-of_split_once : (sep : ℕ) (s : Str) → split_once sep s ≡ none → Lacks sep s
Lacks-of_split_once sep [] h = tt
Lacks-of_split_once sep (c ∷ s) h = ground (arith, Lacks-of_split_once sep s)

pub append_of_split_once :
    (sep : ℕ) (s a b : Str) → split_once sep s ≡ some (a, b) → (s ≡ a ++ sep ∷ b) × Lacks sep a
append_of_split_once sep [] a b h = cc
append_of_split_once sep (c ∷ s) [] b h = ground (arith, Option-cases (split_once sep s))
append_of_split_once sep (c ∷ s) (d ∷ a) b h = ground (arith, append_of_split_once sep s a b)

pub rsplit_once-Lacks : (sep : ℕ) (s : Str) → Lacks sep s → rsplit_once sep s ≡ none
rsplit_once-Lacks sep [] h = refl
rsplit_once-Lacks sep (c ∷ s) h = rw (rsplit_once-Lacks sep s h.1, h.0)

pub rsplit_once-append :
    (sep : ℕ) (a b : Str) → Lacks sep b → rsplit_once sep (a ++ sep ∷ b) ≡ some (a, b)
rsplit_once-append sep [] b h = rw (rsplit_once-Lacks sep b h, ==_self sep)
rsplit_once-append sep (c ∷ a) b h = rw (rsplit_once-append sep a b h)

pub rfind-Lacks : (sep : ℕ) (s : Str) → Lacks sep s → rfind sep s ≡ none
rfind-Lacks sep [] h = refl
rfind-Lacks sep (c ∷ s) h = rw (rfind-Lacks sep s h.1, h.0)

pub rfind-append : (sep : ℕ) (a b : Str) → Lacks sep b → rfind sep (a ++ sep ∷ b) ≡ some (length a)
rfind-append sep [] b h = rw (rfind-Lacks sep b h, ==_self sep)
rfind-append sep (c ∷ a) b h = rw (rfind-append sep a b h)

pub truncate-append : (a b : Str) → truncate (length a) (a ++ b) ≡ a
truncate-append [] b = refl
truncate-append (c ∷ a) b = ap (c ∷◌) (truncate-append a b)

pub str_eq_self : (s : Str) → str_eq s s ≡ true
str_eq_self [] = refl
str_eq_self (c ∷ s) = rw (==_self c, str_eq_self s)

pub eq_of_str_eq : (s t : Str) → str_eq s t ≡ true → s ≡ t
eq_of_str_eq [] [] h = refl
eq_of_str_eq [] (d ∷ t) h = cc
eq_of_str_eq (c ∷ s) [] h = cc
eq_of_str_eq (c ∷ s) (d ∷ t) h = ground (arith, eq_of_str_eq s t)

-- A separator ends a piece, and nothing before it is touched.
pub split-append : (sep : ℕ) (a b : Str) → Lacks sep a → split sep (a ++ sep ∷ b) ≡ a ∷ split sep b
split-append sep [] b h = rw (==_self sep)
split-append sep (c ∷ a) b h = rw (h.0, split-append sep a b h.1)

pub split-Lacks : (sep : ℕ) (s : Str) → Lacks sep s → split sep s ≡ s ∷ []
split-Lacks sep [] h = refl
split-Lacks sep (c ∷ s) h = rw (h.0, split-Lacks sep s h.1)
