-- ===== src/Replacer/Invariant.antt =====
-- Every method of the replacer keeps its invariant.
use dbstorage.Base.{ℕ, suc, ◌+◌, ◌^◌, ◌%◌, ◌<◌, ◌≡◌, refl, inl, inr, arith, Option-cases}
use dbstorage.HashMap.{
  lookup, insert-IsDistinct, update-IsDistinct, remove-IsDistinct, insert-All, update-All,
  remove-All, nat_key,
}
use dbstorage.Replacer.Nodes.{
  FrameId, LrukNode, new_node, IsHistory, IsHistory-snoc, IsHistory-mono,
}
use dbstorage.Replacer.{LrukReplacer, new, record_access, pin, unpin, remove_node}
use dbstorage.Replacer.Candidacy.{IsValid}

abbrev Knows : ℕ → FrameId × LrukNode → Type 0
Knows clock e = (e.1.i ≡ e.0) × IsHistory clock e.1.history

pub new-IsValid : (k : ℕ) → IsValid (new k)
unfolding new
new-IsValid k = record { distinct = tt; entries = tt; clock = omega arith }

module _ (r : LrukReplacer) (i : FrameId) (v : IsValid r) where
  later : (e : FrameId × LrukNode) → Knows r.current_ts e → Knows (suc r.current_ts) e
  later e h = (h.0, IsHistory-mono r.current_ts (suc r.current_ts) e.1.history (omega arith) h.1)

  pin-IsValid : IsValid (pin r i)
  unfolding pin
  pin-IsValid = record {
    distinct = update-IsDistinct i _ r.nodes v.distinct;
    entries =
        update-All (Knows r.current_ts) (Knows r.current_ts) (λ e h. h) i _ r.nodes (λ e h. h)
          v.entries;
    clock = v.clock;
  }

  unpin-IsValid : IsValid (unpin r i)
  unfolding unpin
  unpin-IsValid = record {
    distinct = update-IsDistinct i _ r.nodes v.distinct;
    entries =
        update-All (Knows r.current_ts) (Knows r.current_ts) (λ e h. h) i _ r.nodes (λ e h. h)
          v.entries;
    clock = v.clock;
  }

  remove_node-IsValid : IsValid (remove_node r i)
  unfolding remove_node
  remove_node-IsValid = record {
    distinct = remove-IsDistinct i r.nodes v.distinct;
    entries = remove-All (Knows r.current_ts) (Knows r.current_ts) (λ e h. h) i r.nodes v.entries;
    clock = v.clock;
  }

  module _ (room : r.current_ts + 1 < 2 ^ 64) where
    tick : (r.current_ts + 1) % 2 ^ 64 ≡ suc r.current_ts
    tick = omega arith

    record_access-IsValid : IsValid (record_access r i)
    unfolding record_access new_node
    record_access-IsValid = elim (Option-cases (lookup i r.nodes)) [
      | inl e ↦
          rw (e, record_access, tick)
            (record {
              distinct = insert-IsDistinct i (new_node i r.current_ts) r.nodes v.distinct;
              entries =
                  insert-All (Knows r.current_ts) (Knows (suc r.current_ts)) later i _ r.nodes
                    (refl, omega arith) v.entries;
              clock = omega arith;
            })
      | inr (node, e) ↦
          rw (e, record_access, tick)
            (record {
              distinct = update-IsDistinct i _ r.nodes v.distinct;
              entries =
                  update-All (Knows r.current_ts) (Knows (suc r.current_ts)) later i _ r.nodes
                    (λ x h. (h.0, IsHistory-snoc r.current_ts x.1.history h.1)) v.entries;
              clock = omega arith;
            })
    ]

    -- While the clock has room for one more tick, every method keeps the invariant: no frame gets a
    -- second node, and the timestamps ascend.
    pub methods-IsValid :
        IsValid (pin r i)
        × IsValid (unpin r i)
        × IsValid (remove_node r i)
        × IsValid (record_access r i)
    methods-IsValid = (pin-IsValid, unpin-IsValid, remove_node-IsValid, record_access-IsValid)
