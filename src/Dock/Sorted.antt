-- ===== src/Dock/Sorted.antt =====
-- The panels of a dock stay in the order of their priorities.
use zaku.Prelude.{
  ℕ, zero, suc, ◌≤◌, ◌≡◌, List, [], ◌∷◌, arith, All, length, get_elem?, ltb, insert_idx, Bool-cases,
  inl, inr, leb, get_elem?-insert_idx_le, get_elem?-insert_idx_lt, if◌then◌else◌,
}
use zaku.Dock.{Panel, search_priority}

abbrev pub Ascending : List Panel → Type 0
Ascending [] = Unit
Ascending (p ∷ ps) =
    All (λ (q : Panel). p.activation_priority ≤ q.activation_priority) ps × Ascending ps

pub search_priority-le-length :
    (priority : ℕ) (panels : List Panel) → search_priority priority panels ≤ length panels
unfolding search_priority
search_priority-le-length priority [] = omega arith
search_priority-le-length priority (e ∷ es) = ground (arith, search_priority-le-length priority es)

All-insert_idx :
    (P : Panel → Type 0) (panels : List Panel) (i : ℕ) (panel : Panel)
    → All P panels
    → P panel
    → All P (insert_idx panels i panel)
All-insert_idx P panels zero panel h k = (k, h)
All-insert_idx P [] (suc i) panel h k = (k, tt)
All-insert_idx P (e ∷ es) (suc i) panel h k = (h.0, All-insert_idx P es i panel h.1 k)

All-le_trans :
    (a b : ℕ) (panels : List Panel)
    → a ≤ b
    → All (λ (q : Panel). b ≤ q.activation_priority) panels
    → All (λ (q : Panel). a ≤ q.activation_priority) panels
All-le_trans a b [] h k = tt
All-le_trans a b (e ∷ es) h k = (omega arith, All-le_trans a b es h k.1)

-- An insertion where the search ends keeps the order.
pub Ascending-insert_idx :
    (panels : List Panel) (panel : Panel)
    → Ascending panels
    → Ascending (insert_idx panels (search_priority panel.activation_priority panels) panel)
unfolding search_priority
Ascending-insert_idx [] panel h = (tt, tt)
Ascending-insert_idx (e ∷ es) panel h =
    elim (Bool-cases (ltb e.activation_priority panel.activation_priority)) [
      | inl q ↦
          rw (search_priority, q)
            (All-insert_idx _ es _ panel h.0 (ground arith), Ascending-insert_idx es panel h.1)
      | inr q ↦ rw (search_priority, q) ((ground arith, All-le_trans _ _ es (ground arith) h.0), h)
    ]

-- What stands before the place that the search finds is left there, and the rest moves one on.
pub get_elem?-shift :
    (panels : List Panel) (panel : Panel) (index active : ℕ)
    → index ≤ length panels
    → get_elem? (insert_idx panels index panel) (if leb index active then suc active else active)
      ≡ get_elem? panels active
get_elem?-shift panels panel index active h = elim (Bool-cases (leb index active)) [
  | inl q ↦ rw q (get_elem?-insert_idx_le panels index panel active h (ground arith))
  | inr q ↦ rw q (get_elem?-insert_idx_lt panels index panel active h (ground arith))
]
