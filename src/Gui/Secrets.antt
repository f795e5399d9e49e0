-- ===== src/Gui/Secrets.antt =====
-- client/src/gui/secrets_model.cpp: the list of secrets that the interface shows. The comparisons of
-- Qt and the sorts are parameters: `std::sort` leaves the order of equal names open.
pub mod Showing
use nox_vault.Common.{
  get_elem?, leb, not, negsuc, length, eq_text, map, ℤ, ℕ, List, Text, Option, Bool, ◌≡◌, some,
  if◌then◌else◌, ◌||◌, ◌∷◌, [], pos, false, none,
}
use mathlib.Core.List.{Perm}

pub record Item : Type 0 where
  pub name : Text
  pub updated_at : Text

-- No later element is less than an earlier one, which is what a sort promises.
abbrev pub NoneLess : {X : Type 0} → (X → X → Bool) → X → List X → Type 0
NoneLess less x [] = Unit {0}
NoneLess less x (y ∷ ys) = (less y x ≡ false) × NoneLess less x ys

abbrev pub IsOrdered : {X : Type 0} → (X → X → Bool) → List X → Type 0
IsOrdered less [] = Unit {0}
IsOrdered less (x ∷ xs) = NoneLess less x xs × IsOrdered less xs

pub record Qt : Type 0 where
  -- a.compare(b, Qt::CaseInsensitive) < 0, and name.contains(filter, Qt::CaseInsensitive)
  pub less : Text → Text → Bool
  pub holds : Text → Text → Bool
  -- QStringList::sort and std::sort by the name
  pub sort_names : List Text → List Text
  pub sort_items : List Item → List Item
  pub sort_names-IsOrdered : (l : List Text) → IsOrdered less (sort_names l)
  pub sort_names-Perm : (l : List Text) → Perm (sort_names l) l
  pub sort_items-IsOrdered :
      (l : List Item) → IsOrdered (λ (a b : Item). less a.name b.name) (sort_items l)
  pub sort_items-Perm : (l : List Item) → Perm (sort_items l) l

pub record SecretsModel : Type 0 where
  pub items : List Item
  pub visible : List Item
  pub filter : Text

abbrev pub empty_model : SecretsModel
empty_model = record { items = []; visible = []; filter = [] }

pub data Role : Type 0 where
  name_role updated_at_role other_role : Role

unfoldable pub row_count : Bool → SecretsModel → ℕ
row_count nested m = if nested then 0 else length m.visible

-- `none` is the empty QVariant.
field : Role → Item → Option Text
field name_role i = some i.name
field updated_at_role i = some i.updated_at
field other_role i = none

at_row : Role → Option Item → Option Text
unfolding field
at_row role none = none
at_row role (some i) = field role i

unfoldable pub data_at : Bool → ℤ → Role → SecretsModel → Option Text
unfolding at_row
data_at valid (negsuc n) role m = none
data_at valid (pos n) role m =
    if not valid || leb (length m.visible) n then none else at_row role (get_elem? m.visible n)

module _ ⦃Q : Qt⦄ where
  unfoldable pub shown : Text → List Item → List Item
  shown filter [] = []
  shown filter (i ∷ l) =
      let rest = shown filter l in
      if eq_text filter [] || Q.holds i.name filter then i ∷ rest else rest

  unfoldable pub rebuild : SecretsModel → SecretsModel
  rebuild m = record m { visible = shown m.filter m.items }

  unfoldable pub set_filter : Text → SecretsModel → SecretsModel
  set_filter value m = if eq_text m.filter value then m else rebuild (record m { filter = value })

  bare : Text → Item
  bare name = record { name = name; updated_at = [] }

  unfoldable pub set_names : List Text → SecretsModel → SecretsModel
  unfolding bare
  set_names names m = rebuild (record m { items = map bare (Q.sort_names names) })

  unfoldable pub set_records : List Item → SecretsModel → SecretsModel
  set_records records m = rebuild (record m { items = Q.sort_items records })

  unfoldable pub clear : SecretsModel → SecretsModel
  clear m = rebuild (record m { items = [] })
