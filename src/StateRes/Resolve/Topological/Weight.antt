-- ===== src/StateRes/Resolve/Topological/Weight.antt =====
-- Heaps as lists of nodes, and the edges of a graph counted.
use arcana_server.Common.{
  ℕ, suc, ◌+◌, ◌≤◌, ◌<◌, ◌≡◌, ◌⊎◌, ◌↔◌, inl, inr, refl, sym, some, List, [], ◌∷◌, arith, In, length,
  lookup, insert, string_Eq, ap, Bool-cases, NoRepeat, ◌==◌,
}
use arcana_server.StateRes.Content.{Ruma}
use arcana_server.StateRes.Event.{EventId}
use arcana_server.StateRes.Resolve.Topological.{Graph, TieBreaker, is_before, pop_least, remove}
use text.Mathlib.TextEquality.{eq_iff}

-- the number of edges
abbrev pub edge_count : Graph → ℕ
edge_count [] = 0
edge_count ((p, edges) ∷ rest) = length edges + edge_count rest

abbrev pub ids_of : List TieBreaker → List EventId
ids_of [] = []
ids_of (t ∷ rest) = t.event_id ∷ ids_of rest

pub ids_of-mem :
    (id : EventId) (heap : List TieBreaker)
    → In id (ids_of heap)
    → (t : TieBreaker) × In t heap × (t.event_id ≡ id)
ids_of-mem id [] m = absurd m
ids_of-mem id (t ∷ rest) (inl e) = (t, inl refl, sym e)
ids_of-mem id (t ∷ rest) (inr m) = let (u, v, e) = ids_of-mem id rest m in (u, inr v, e)

pub mem-ids_of : (t : TieBreaker) (heap : List TieBreaker) → In t heap → In t.event_id (ids_of heap)
mem-ids_of t [] m = m
mem-ids_of t (u ∷ rest) m = ground (arith, mem-ids_of t rest)

pub length-remove :
    (id : EventId) (ids : List EventId)
    → (length (remove id ids) ≤ length ids) × (In id ids → length (remove id ids) < length ids)
unfolding remove
length-remove id [] = ground arith
length-remove id (x ∷ ids) = ground (arith, eq_iff x id, length-remove id ids)

pub edge_count-insert :
    (p : EventId) (left out : List EventId) (graph : Graph)
    → lookup p graph ≡ some out
    → edge_count (insert p left graph) + length out ≡ edge_count graph + length left
unfolding insert
edge_count-insert p left out [] l = absurd (ground arith)
edge_count-insert p left out ((q, edges) ∷ rest) l = elim (Bool-cases (q == p)) [
  | inl same ↦ rw same (ground arith)
  | inr differs ↦ rw differs (ground (arith, edge_count-insert p left out rest))
]

pub length-pop_least :
    (r : Ruma) (item : TieBreaker) (rest : List TieBreaker)
    → length (pop_least r item rest).1 ≡ length rest
unfolding pop_least
length-pop_least r item [] = refl
length-pop_least r item (other ∷ rest) = elim (Bool-cases (is_before r other item)) [
  | inl b ↦ rw b (ap suc (length-pop_least r other rest))
  | inr b ↦ rw b (ap suc (length-pop_least r item rest))
]

pub pop_least-ids :
    (r : Ruma) (item : TieBreaker) (rest : List TieBreaker) (id : EventId)
    → ((id ≡ (pop_least r item rest).0.event_id) ⊎ In id (ids_of (pop_least r item rest).1))
      ↔ In id (ids_of (item ∷ rest))
unfolding pop_least
pop_least-ids r item [] id = ground arith
pop_least-ids r item (other ∷ rest) id = elim (Bool-cases (is_before r other item)) [
  | inl b ↦ rw b (ground (arith, pop_least-ids r other rest id))
  | inr b ↦ rw b (ground (arith, pop_least-ids r item rest id))
]

pub pop_least-NoRepeat :
    (r : Ruma) (item : TieBreaker) (rest : List TieBreaker)
    → NoRepeat (ids_of (item ∷ rest))
    → NoRepeat ((pop_least r item rest).0.event_id ∷ ids_of (pop_least r item rest).1)
unfolding pop_least
pop_least-NoRepeat r item [] n = n
pop_least-NoRepeat r item (other ∷ rest) n = elim (Bool-cases (is_before r other item)) [
  | inl b ↦ rw b (
      ground (
        arith,
        pop_least-NoRepeat r other rest,
        pop_least-ids r other rest item.event_id,
        pop_least-ids r other rest (pop_least r other rest).0.event_id,
      ))
  | inr b ↦ rw b (
      ground (
        arith,
        pop_least-NoRepeat r item rest,
        pop_least-ids r item rest other.event_id,
        pop_least-ids r item rest (pop_least r item rest).0.event_id,
      ))
]
