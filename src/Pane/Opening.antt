-- ===== src/Pane/Opening.antt =====
-- `open_item`: what it shows, that it keeps the pane valid where it activates, and the case where
-- it leaves the pane with no active tab.
use zaku.Prelude.{
  ℕ, ◌≡◌, ◌∙◌, refl, ap, Bool, true, false, Option, some, List, arith, get_elem?, if◌then◌else◌,
  Option-cases, inl, inr, position, get_elem?-position, lt-length_of_get_elem?, not, ◌&&◌,
}
use zaku.Pane.{ProjectPath, Item, Pane, active_item, unpreview_item_if_preview}
use zaku.Pane.Add.{is_existing, add_item}
use zaku.Pane.Close.{close_current_preview_item}
use zaku.Pane.Open.{
  OpenOptions, shows, unpreview_existing, set_up_existing_item, set_up_new_item, open_new,
  open_item, preview_if,
}
use zaku.Pane.Active.{IsValid, active_item-activate_item}
use zaku.Pane.Adding.{active_item-add_item_activate, is_existing_self, IsValid-of_active_item}

items-unpreview : (pane : Pane) (id : ℕ) → (unpreview_item_if_preview pane id).items ≡ pane.items
unfolding unpreview_item_if_preview
items-unpreview pane id = ground arith

items-unpreview_existing :
    (pane : Pane) (index : ℕ) (options : OpenOptions)
    → (unpreview_existing pane index options).items ≡ pane.items
unfolding unpreview_existing
items-unpreview_existing pane index options = elim (Option-cases (get_elem? pane.items index)) [
  | inl e ↦ rw (unpreview_existing, e)
  | inr (item, e) ↦ rw (unpreview_existing, e) (ground (arith, items-unpreview pane item.item_id))
]

pub active_item-preview_if :
    (b : Bool) (pane : Pane) (id : ℕ) → active_item (preview_if b pane id) ≡ active_item pane
active_item-preview_if true pane id = refl
active_item-preview_if false pane id = refl

module _ (options : OpenOptions) (a : options.activate ≡ true) where
  active_item-set_up_existing_item :
      (pane : Pane) (index : ℕ) {item : Item}
      → get_elem? pane.items index ≡ some item
      → active_item (set_up_existing_item pane index options) ≡ some item
  unfolding set_up_existing_item
  active_item-set_up_existing_item pane index {item} e =
      let settled = unpreview_existing pane index options in
      let same = items-unpreview_existing pane index options in
      let at : get_elem? settled.items index ≡ some item =
        ap (λ (l : List Item). get_elem? l index) same ∙ e in
      rw a (
        (active_item-activate_item settled index options.focus_item
          (lt-length_of_get_elem? settled.items index at)).0
        ∙ at)

  active_item-set_up_new_item :
      (pane : Pane) (item : Item) (destination : Option ℕ) (was_active : Bool)
      → (shown : Item) × (active_item (set_up_new_item pane item destination was_active options)
          ≡ some shown)
        × (is_existing item shown ≡ true)
  unfolding set_up_new_item
  active_item-set_up_new_item pane item destination was_active =
      let marked = preview_if (options.allow_preview && was_active) pane item.item_id in
      let (shown, e, m) =
        active_item-add_item_activate marked item options.focus_item destination in
      (
        shown,
        rw a (
            active_item-preview_if (options.allow_preview && not was_active)
              (add_item marked item options.focus_item true destination) item.item_id
            ∙ e),
        m,
      )

  open_new-shows :
      (pane : Pane) (build_item : Pane → Item)
      → let opened = open_new pane options build_item in
        (shown : Item) × (active_item opened.0 ≡ some shown) × (is_existing opened.1 shown ≡ true)
  unfolding open_new
  open_new-shows pane build_item =
      let closed : Pane × Option ℕ =
        if options.allow_preview
        then close_current_preview_item pane options.has_focus
        else (pane, options.suggested_position) in
      active_item-set_up_new_item closed.0 (build_item closed.0) closed.1 _

  -- `open_item` with `activate` returns an item, and the active tab is then that item, or a tab that
  -- `add_item` takes for it, one of the same id or of the same first project entry. The active index
  -- is in range then, even if it was not before.
  pub open_item-shows :
      (pane : Pane) (entry_id : Option ℕ) (path : ProjectPath) (build_item : Pane → Item)
      → let opened = open_item pane entry_id path options build_item in
        (item shown : Item) × (opened.1 ≡ some item)
        × (active_item opened.0 ≡ some shown)
        × (is_existing item shown ≡ true)
        × IsValid opened.0
  unfolding open_item
  open_item-shows pane entry_id path build_item =
      elim (Option-cases (position (shows entry_id path) pane.items)) [
        | inl e ↦
            let (shown, q, m) = open_new-shows pane build_item in
            (
              (open_new pane options build_item).1,
              shown,
              rw (open_item, e),
              rw (open_item, e) q,
              m,
              rw (open_item, e) (IsValid-of_active_item (open_new pane options build_item).0 q),
            )
        | inr (index, e) ↦
            let (item, at, _) = get_elem?-position (shows entry_id path) pane.items index e in
            let q = active_item-set_up_existing_item pane index at in
            (
              item,
              item,
              rw (open_item, e) at,
              rw (open_item, e) q,
              is_existing_self item,
              rw (open_item, e)
                  (IsValid-of_active_item (set_up_existing_item pane index options) q),
            )
      ]
