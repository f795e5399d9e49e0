-- ===== src/Gui/Secrets/Showing.antt =====
-- What the list shows after any sequence of its operations.
use mathlib.Core.List.{Perm, filter}
use mathlib.Core.List.Perm
use mathlib.Core.Bool.{Bool-discrete}
use mathlib.Core.Logic.{ite}
use nox_vault.Common.{
  sym, ◌∙◌, ap, true, if◌then◌else◌, false, subst, eq_text_iff, map, eq_text, List, Text,
  Bool-cases, Bool, inl, ◌≡◌, refl, ◌||◌, inr, ◌∷◌, [],
}
use nox_vault.Gui.Secrets.{
  Qt, Item, SecretsModel, empty_model, IsOrdered, NoneLess, shown, rebuild, set_filter, set_names,
  set_records, clear, bare,
}

pub data Op : Type 0 where
  filtering : Text → Op
  naming : List Text → Op
  recording : List Item → Op
  clearing : Op

not_true : (b : Bool) → ¬ (b ≡ true) → b ≡ false
not_true true n = absurd (n refl)
not_true false n = refl

module _ ⦃Q : Qt⦄ where
  abbrev pub by_name : Item → Item → Bool
  by_name a b = Q.less a.name b.name

  unfoldable pub apply : Op → SecretsModel → SecretsModel
  apply (filtering t) m = set_filter t m
  apply (naming l) m = set_names l m
  apply (recording l) m = set_records l m
  apply clearing m = clear m

  unfoldable pub run_ops : List Op → SecretsModel → SecretsModel
  run_ops [] m = m
  run_ops (op ∷ ops) m = run_ops ops (apply op m)

  -- What the operations were last given, read without the list: the items before the sort, and the
  -- filter.
  pub given_after : List Op → List Item → List Item
  given_after [] l = l
  given_after (filtering t ∷ ops) l = given_after ops l
  given_after (naming names ∷ ops) l =
      given_after ops (map (λ (n : Text). record { name = n; updated_at = [] }) names)
  given_after (recording items ∷ ops) l = given_after ops items
  given_after (clearing ∷ ops) l = given_after ops []

  pub filter_after : List Op → Text → Text
  filter_after [] t = t
  filter_after (filtering u ∷ ops) t = filter_after ops u
  filter_after (naming names ∷ ops) t = filter_after ops t
  filter_after (recording items ∷ ops) t = filter_after ops t
  filter_after (clearing ∷ ops) t = filter_after ops t

  -- An item matches the empty filter, and one that its name holds.
  abbrev pub Matches : Text → Item → Type 0
  Matches [] i = Unit {0}
  Matches (x ∷ t) i = Q.holds i.name (x ∷ t) ≡ true

  pub matches : (t : Text) (i : Item) → Dec (Matches t i)
  matches [] i = yes tt
  matches (x ∷ t) i = Bool-discrete (Q.holds i.name (x ∷ t)) true

  shown-filter : (t : Text) (l : List Item) → shown t l ≡ filter (matches t) l
  unfolding shown matches
  shown-filter [] [] = refl
  shown-filter (x ∷ t) [] = refl
  shown-filter [] (i ∷ l) = ap (λ r. i ∷ r) (shown-filter [] l)
  shown-filter (x ∷ t) (i ∷ l) =
      go (shown-filter (x ∷ t) l) (Bool-discrete (Q.holds i.name (x ∷ t)) true)
    where
      go :
          (shown (x ∷ t) l ≡ filter (matches (x ∷ t)) l)
          → (d : Dec (Q.holds i.name (x ∷ t) ≡ true))
          → (if Q.holds i.name (x ∷ t) then i ∷ shown (x ∷ t) l else shown (x ∷ t) l)
            ≡ ite d (i ∷ filter (matches (x ∷ t)) l) (filter (matches (x ∷ t)) l)
      go e (yes y) = rw y (ap (λ r. i ∷ r) e)
      go e (no n) = rw (not_true _ n) e

  -- The visible rows are the items that match the filter; the items are those that were given, in
  -- the order of the names.
  pub record IsShown (given : List Item) (t : Text) (m : SecretsModel) : Type 0 where
    pub filter_kept : m.filter ≡ t
    pub visible : m.visible ≡ shown t m.items
    pub same : Perm m.items given
    pub ordered : IsOrdered by_name m.items

  shown-NoneLess :
      (t : Text) (x : Item) (l : List Item) → NoneLess by_name x l → NoneLess by_name x (shown t l)
  unfolding shown
  shown-NoneLess t x [] h = tt
  shown-NoneLess t x (y ∷ l) (a, h) = elim (Bool-cases (eq_text t [] || Q.holds y.name t)) [
    | inl k ↦ rw k (a, shown-NoneLess t x l h)
    | inr k ↦ rw k (shown-NoneLess t x l h)
  ]

  shown-IsOrdered : (t : Text) (l : List Item) → IsOrdered by_name l → IsOrdered by_name (shown t l)
  unfolding shown
  shown-IsOrdered t [] h = tt
  shown-IsOrdered t (y ∷ l) (a, h) = elim (Bool-cases (eq_text t [] || Q.holds y.name t)) [
    | inl k ↦ rw k (shown-NoneLess t y l a, shown-IsOrdered t l h)
    | inr k ↦ rw k (shown-IsOrdered t l h)
  ]

  bare-NoneLess :
      (n : Text) (l : List Text) → NoneLess Q.less n l → NoneLess by_name (bare n) (map bare l)
  unfolding bare
  bare-NoneLess n [] h = tt
  bare-NoneLess n (k ∷ l) (a, h) = (a, bare-NoneLess n l h)

  bare-IsOrdered : (l : List Text) → IsOrdered Q.less l → IsOrdered by_name (map bare l)
  bare-IsOrdered [] h = tt
  bare-IsOrdered (k ∷ l) (a, h) = (bare-NoneLess k l a, bare-IsOrdered l h)

  apply-IsShown :
      (op : Op) (ops : List Op) (l : List Item) (t : Text) (m : SecretsModel)
      → IsShown l t m
      → ((k : List Item) (u : Text) (n : SecretsModel)
          → IsShown k u n
          → IsShown (given_after ops k) (filter_after ops u) (run_ops ops n))
      → IsShown (given_after (op ∷ ops) l) (filter_after (op ∷ ops) t) (run_ops ops (apply op m))
  unfolding apply set_filter set_names set_records clear rebuild given_after filter_after bare
  apply-IsShown (filtering u) ops l t m v go = elim (Bool-cases (eq_text m.filter u)) [
    | inl y ↦
        let e : m.filter ≡ u = (eq_text_iff m.filter u).0 y in
        let stays : set_filter u m ≡ m = rw y refl in
        subst (λ n. IsShown (given_after ops l) (filter_after ops u) (run_ops ops n)) (sym stays)
          (go l u m (record {
            filter_kept = e;
            visible = v.visible ∙ ap (λ w. shown w m.items) (sym v.filter_kept ∙ e);
            same = v.same;
            ordered = v.ordered;
          }))
    | inr n ↦
        let changes : set_filter u m ≡ rebuild (record m { filter = u }) = rw n refl in
        subst (λ n. IsShown (given_after ops l) (filter_after ops u) (run_ops ops n)) (sym changes)
          (go l u (rebuild (record m { filter = u }))
            (record { filter_kept = refl; visible = refl; same = v.same; ordered = v.ordered }))
  ]
  apply-IsShown (naming names) ops l t m v go = go (map bare names) t (set_names names m) (record {
    filter_kept = v.filter_kept;
    visible = ap (λ w. shown w (map bare (Q.sort_names names))) v.filter_kept;
    same = Perm.map bare (Q.sort_names-Perm names);
    ordered = bare-IsOrdered (Q.sort_names names) (Q.sort_names-IsOrdered names);
  })
  apply-IsShown (recording items) ops l t m v go = go items t (set_records items m) (record {
    filter_kept = v.filter_kept;
    visible = ap (λ w. shown w (Q.sort_items items)) v.filter_kept;
    same = Q.sort_items-Perm items;
    ordered = Q.sort_items-IsOrdered items;
  })
  apply-IsShown clearing ops l t m v go = go [] t (clear m) (record {
    filter_kept = v.filter_kept;
    visible = ap (λ w. shown w []) v.filter_kept;
    same = Perm.refl [];
    ordered = tt;
  })

  run_ops-IsShown :
      (ops : List Op) (l : List Item) (t : Text) (m : SecretsModel)
      → IsShown l t m
      → IsShown (given_after ops l) (filter_after ops t) (run_ops ops m)
  unfolding run_ops given_after filter_after
  run_ops-IsShown [] l t m v = v
  run_ops-IsShown (op ∷ ops) l t m v = apply-IsShown op ops l t m v (run_ops-IsShown ops)

  -- After any sequence of operations on an empty list the visible rows are, up to their order, the
  -- items that were given last and match the filter that was set last, and they stand in the order of
  -- their names.
  pub run_shows :
      (ops : List Op)
      → Perm
          (run_ops ops empty_model).visible
          (filter (matches (filter_after ops [])) (given_after ops []))
        × IsOrdered by_name (run_ops ops empty_model).visible
  unfolding shown
  run_shows ops =
      let v =
        run_ops-IsShown ops [] [] empty_model
          (record { filter_kept = refl; visible = refl; same = Perm.refl []; ordered = tt }) in
      (
        subst (λ w. Perm w (filter (matches (filter_after ops [])) (given_after ops [])))
            (sym (v.visible ∙ shown-filter _ _))
            (Perm.filter (matches (filter_after ops [])) v.same),
        rw v.visible (shown-IsOrdered _ _ v.ordered),
      )
