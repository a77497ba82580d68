-- ===== src/Tests/FreeLists.antt =====
-- A free list of three places, two of them taken up.
use dbstorage.Base.{◌+◌, ◌≡◌, refl, some, none, [], ◌∷◌, arith}
use dbstorage.PageCache.FreeFrames.{FreeList}
use dbstorage.PageCache.FreeFrames.Laws.{frames}
use dbstorage.PageCache.FreeFrames.Interleaving.{
  Shared, Steps, go, stop, claim_push, claim_pop, load_frame, find_empty, at_rest, frames-overtaken,
}
use dbstorage.PageCache.FreeFrames.Interleaving.Bounds.{IsWithin, Steps-IsWithin}
use dbstorage.PageCache.FreeFrames.Interleaving.Draining.{OnlyPops, given, count, given-drained}

abbrev two_of_three : FreeList
two_of_three = record { free = 5 ∷ 6 ∷ 7 ∷ []; tail = 2 }

-- Two pops have their places and a push has the lower one of them.
abbrev two_popping : Shared
two_popping = record {
  list = record { free = 5 ∷ 6 ∷ 7 ∷ []; tail = 1 };
  storing = (0, 9) ∷ [];
  loading = 0 ∷ 1 ∷ [];
  answers = [];
}

crossing : Steps (at_rest two_of_three) two_popping
crossing = go _ _ _ (claim_pop (at_rest two_of_three) (λ e. absurd (omega arith))) (
    go _ _ _
      (claim_pop
        (record {
          list = record { free = 5 ∷ 6 ∷ 7 ∷ []; tail = 1 };
          storing = [];
          loading = 1 ∷ [];
          answers = [];
        })
        (λ e. absurd (omega arith)))
      (go _ _ _
        (claim_push
          (record {
            list = record { free = 5 ∷ 6 ∷ 7 ∷ []; tail = 0 };
            storing = [];
            loading = 0 ∷ 1 ∷ [];
            answers = [];
          })
          9 (λ e. absurd (omega arith)))
        (stop two_popping)))

at_rest-IsWithin : IsWithin 3 (at_rest two_of_three)
at_rest-IsWithin = record {
  whole = refl;
  tail_within = omega arith;
  store_within = tt;
  load_within = tt;
}

Steps-IsWithin_example : IsWithin 3 two_popping
Steps-IsWithin_example =
    Steps-IsWithin 3 (at_rest two_of_three) two_popping crossing at_rest-IsWithin

abbrev first_claim : Shared
first_claim = record (at_rest two_of_three) {
  list = record two_of_three { tail = 1 };
  loading = 1 ∷ [];
}

abbrev second_claim : Shared
second_claim = record (at_rest two_of_three) {
  list = record two_of_three { tail = 0 };
  loading = 0 ∷ 1 ∷ [];
}

abbrev one_done : Shared
one_done = record second_claim { loading = 0 ∷ []; answers = some 6 ∷ [] }

abbrev three_done : Shared
three_done = record second_claim { loading = []; answers = none ∷ some 5 ∷ some 6 ∷ [] }

-- Two pops at once, and a third one that comes too late.
draining : Steps (at_rest two_of_three) three_done
draining = go _ first_claim _ (claim_pop (at_rest two_of_three) (λ e. absurd (omega arith))) (
    go _ second_claim _ (claim_pop first_claim (λ e. absurd (omega arith))) (
      go _ one_done _ (load_frame second_claim (0 ∷ []) [] 1 refl) (
        go _ (record one_done { loading = []; answers = some 5 ∷ some 6 ∷ [] }) _
          (load_frame one_done [] [] 0 refl)
          (go _ three_done _
            (find_empty (record one_done { loading = []; answers = some 5 ∷ some 6 ∷ [] }) refl)
            (stop three_done)))))

only_pops : OnlyPops draining
unfolding draining
only_pops = (tt, (tt, (tt, (tt, (tt, tt)))))

given-drained_example : given 5 three_done.answers + count 5 (frames three_done.list) ≡ 1
given-drained_example =
    given-drained two_of_three three_done 5 draining (omega arith) only_pops refl

frames-overtaken_example :
    (s' : Shared) × Steps (at_rest two_of_three) s'
    × (s'.storing ≡ [])
    × (s'.loading ≡ [])
    × (s'.answers ≡ some 7 ∷ [])
    × (s'.list.free ≡ 5 ∷ 6 ∷ 9 ∷ [])
    × (frames s'.list ≡ 5 ∷ 6 ∷ [])
frames-overtaken_example = frames-overtaken two_of_three 9 (omega arith)
