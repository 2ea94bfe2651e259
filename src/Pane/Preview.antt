-- ===== src/Pane/Preview.antt =====
-- `close_current_preview_item`: what the index that it sets back by hand is worth.
use mathlib.Core.Path.{ap₂, subst}
use zaku.Prelude.{
  ℕ, suc, ◌-◌, ◌≡◌, refl, sym, ap, Bool, false, Option, none, some, List, arith, length, get_elem?,
  ltb, ◌==◌, if◌then◌else◌, Option-cases, inl, inr, erase_idx, position, length-erase_idx,
  get_elem?-erase_idx_lt, get_elem?-erase_idx_le,
}
use zaku.Pane.{Item, Pane, active_item, preview_item_idx, has_id, set_preview_item_id, pred_if}
use zaku.Pane.Close.{close_preview_at, close_found, close_current_preview_item}
use zaku.Pane.Closing.{items-remove_item}

-- What there is of a preview tab: its id, and where that stands.
preview_of_idx :
    (pane : Pane) (index : ℕ)
    → preview_item_idx pane ≡ some index
    → (id : ℕ) × (pane.preview_item_id ≡ some id) × (position (has_id id) pane.items ≡ some index)
unfolding preview_item_idx
preview_of_idx pane index e = elim (Option-cases pane.preview_item_id) [
  | inl n ↦ absurd (cc (rw (preview_item_idx, n) at e))
  | inr (id, q) ↦ (id, q, rw (preview_item_idx, q) at e)
]

record Closed (pane : Pane) (index : ℕ) (r : Pane × Option ℕ) : Type 0 where
  items_eq : r.0.items ≡ erase_idx pane.items index
  active_eq :
      r.0.active_item_index ≡ pred_if (ltb index pane.active_item_index) pane.active_item_index
  result_eq : r.1 ≡ (if ltb index (length (erase_idx pane.items index)) then some index else none)

close_preview_at-Closed :
    (pane : Pane) (index id : ℕ) (has_focus : Bool)
    → position (has_id id) pane.items ≡ some index
    → Closed pane index (close_preview_at pane index id has_focus)
unfolding close_preview_at
close_preview_at-Closed pane index id has_focus e =
    let q = items-remove_item (set_preview_item_id pane none) id false false has_focus index e in
    record {
      items_eq = q;
      active_eq = refl;
      result_eq = ap (λ (l : List Item). if ltb index (length l) then some index else none) q;
    }

module _ (pane : Pane) (has_focus : Bool) (index : ℕ) (e : preview_item_idx pane ≡ some index) where
  close-Closed : Closed pane index (close_current_preview_item pane has_focus)
  unfolding close_current_preview_item
  close-Closed =
      let (id, q, p) = preview_of_idx pane index e in
      subst (Closed pane index) (sym (ap₂ (λ o i. close_found pane o i has_focus) e q))
        (close_preview_at-Closed pane index id has_focus p)

  pub items-close_current_preview_item :
      (close_current_preview_item pane has_focus).0.items ≡ erase_idx pane.items index
  items-close_current_preview_item = close-Closed.items_eq

  -- The active tab stays, unless it is the preview that closes: then the tab behind it is active,
  -- and if there is none, no tab is.
  pub active_item-close_current_preview_item :
      active_item (close_current_preview_item pane has_focus).0 ≡ (
        if index == pane.active_item_index
        then get_elem? pane.items (suc index)
        else active_item pane)
  active_item-close_current_preview_item = ground (
    arith,
    close-Closed,
    get_elem?-erase_idx_lt pane.items index pane.active_item_index,
    get_elem?-erase_idx_le pane.items index pane.active_item_index,
    get_elem?-erase_idx_le pane.items index (pane.active_item_index - 1),
  )

  -- Where the preview is the active tab and the last one, the index is left past the end.
  pub past_end-close_current_preview_item :
      index ≡ pane.active_item_index
      → suc index ≡ length pane.items
      → ((close_current_preview_item pane has_focus).0.active_item_index
          ≡ length (close_current_preview_item pane has_focus).0.items)
        × ((close_current_preview_item pane has_focus).1 ≡ none)
        × (length (close_current_preview_item pane has_focus).0.items ≡ index)
  past_end-close_current_preview_item same last =
      let n = ap (λ (l : List Item). length l) close-Closed.items_eq in
      let m = length-erase_idx pane.items index (omega arith) in
      (
        ground (arith, close-Closed.active_eq, n, m),
        ground (arith, close-Closed.result_eq, m),
        omega (arith, n, m),
      )
