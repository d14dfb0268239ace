-- ===== src/Spans/Tests.antt =====
-- Runs of spanw.go, and an example of each result about it.
use go_utility.Base.{String, false, ◌≡◌, refl, none, some, [], ◌∷◌, map, All}
use go_utility.Spans.{Entry, Globals, init, uninitialized, get_chain, start, finish}
use go_utility.Spans.Chains.{Told, finish_lem}

abbrev on : Globals String
on = init none ("count" ∷ "time" ∷ [])

switched_off : start {M = String} (init (some false) []) [] "f" ≡ []
unfolding start
switched_off = refl

default_on : get_chain (start {M = String} uninitialized [] "f") ≡ "f" ∷ []
unfolding start get_chain
default_on = refl

finish_lem_example :
    (map (λ c. c.metric) (finish on (Entry.chain ("Handler" ∷ []) ∷ []) "Usecase" 3 10)
      ≡ "count" ∷ "time" ∷ [])
    × All
        (Told on (Entry.chain ("Handler" ∷ []) ∷ []) "Usecase" 7)
        (finish on (Entry.chain ("Handler" ∷ []) ∷ []) "Usecase" 3 10)
finish_lem_example = finish_lem on (Entry.chain ("Handler" ∷ []) ∷ []) "Usecase" 3 10
