-- ===== src/Cron/Shared.antt =====
-- cronw: calls of `Register` that share a slice with spare capacity.
use go_utility.Base.{
  ℕ, zero, suc, ◌+◌, ◌≤◌, ◌<◌, String, ◌≡◌, refl, ap, ◌∙◌, Option, none, some, List, [], ◌∷◌, ◌++◌,
  length, set, get_elem?-set_self, length-set, ltb, arith, true,
}
use go_utility.Base.Text.{take, drop}
use native.Mathlib.Nat.{zero-add, suc-add}
use go_utility.Cron.{Slice, cells, elements, put, append, Scheduler, Call, register}
use go_utility.Cron.Chains.{chains, register_all}

-- A write to the cell after the elements of a slice leaves them, and is what a longer slice ends with.
put_front {ℓ} :
    {H : Type ℓ} (n : ℕ) (h : H) (cs : List H)
    → n ≤ length cs
    → (take n (put n h cs) ≡ take n cs) × (take (suc n) (put n h cs) ≡ take n cs ++ h ∷ [])
put_front zero h [] le = (refl, refl)
put_front zero h (c ∷ cs) le = (refl, refl)
put_front (suc n) h [] le = absurd (omega arith)
put_front (suc n) h (c ∷ cs) le =
    let (same, more) = put_front n h cs (omega arith) in
    (ap (λ l. c ∷ l) same, ap (λ l. c ∷ l) more)

put_elements {ℓ} :
    {H : Type ℓ} (o n : ℕ) (h : H) (cs : List H)
    → o + n ≤ length cs
    → (take n (drop o (put (o + n) h cs)) ≡ take n (drop o cs))
      × (take (suc n) (drop o (put (o + n) h cs)) ≡ take n (drop o cs) ++ h ∷ [])
put_elements zero n h cs le = rw (zero-add) (put_front n h cs (omega arith))
put_elements (suc o) n h [] le = absurd (omega (arith, suc-add o n))
put_elements (suc o) n h (c ∷ cs) le =
    rw (suc-add) (put_elements o n h cs (omega (arith, suc-add o n)))

ltb_less : (m n : ℕ) → m < n → ltb m n ≡ true
ltb_less m n h = ground arith

-- A slice with room in its array, which exists.
abbrev pub HasRoom {ℓ} : {H : Type ℓ} → List (List H) → Slice → Type 0
HasRoom store s =
    (s.array < length store)
    × (s.offset + s.len ≤ length (cells store s.array))
    × (s.len < s.capacity)

length-put {ℓ} : {H : Type ℓ} (i : ℕ) (h : H) (cs : List H) → length cs ≤ length (put i h cs)
length-put i h [] = omega arith
length-put zero h (c ∷ cs) = omega arith
length-put (suc i) h (c ∷ cs) = omega (arith, length-put i h cs)

cells-set {ℓ} :
    {H : Type ℓ} (store : List (List H)) (a : ℕ) (cs : List H)
    → a < length store
    → cells (set store a cs) a ≡ cs
cells-set store a cs h =
    ap (λ o. elim o [ none ↦ [] | some c ↦ c ]) (get_elem?-set_self store a cs h)

-- What `append` makes of a slice with room, and the arrays after it.
abbrev longer : Slice → Slice
longer s = record { array = s.array; offset = s.offset; len = suc s.len; capacity = s.capacity }

abbrev wrote {ℓ} : {H : Type ℓ} → Slice → H → List (List H) → List (List H)
wrote s h store = set store s.array (put (s.offset + s.len) h (cells store s.array))

append_room {ℓ} :
    {H : Type ℓ} (spare : ℕ) (s : Slice) (h : H) (store : List (List H))
    → s.len < s.capacity
    → append spare s h store ≡ (longer s, wrote s h store)
unfolding append
append_room spare s h store room = rw (append, ltb_less s.len s.capacity room) refl

elements-wrote {ℓ} :
    {H : Type ℓ} (s : Slice) (h : H) (store : List (List H))
    → HasRoom store s
    → (elements (wrote s h store) (longer s) ≡ elements store s ++ h ∷ [])
      × (elements (wrote s h store) s ≡ elements store s)
      × HasRoom (wrote s h store) s
unfolding elements
elements-wrote s h store (there, inside, room) =
    let found = cells-set store s.array (put (s.offset + s.len) h (cells store s.array)) there in
    let (same, more) = put_elements s.offset s.len h (cells store s.array) inside in
    (
      ap (λ cs. take (suc s.len) (drop s.offset cs)) found ∙ more,
      ap (λ cs. take s.len (drop s.offset cs)) found ∙ same,
      (
        omega (
          arith,
          there,
          length-set store s.array (put (s.offset + s.len) h (cells store s.array)),
        ),
        omega
            (arith, inside, ap length found, length-put (s.offset + s.len) h (cells store s.array)),
        room,
      ),
    )

register_room :
    {H E : Type 0} (add_func : String → ℕ × Option E) (spare : ℕ) (c : Call H) (s : Scheduler H)
    → c.middlewares.len < c.middlewares.capacity
    → (add_func c.pattern).1 ≡ none
    → (register add_func spare c s).1 ≡ record {
      store = wrote c.middlewares c.handler s.store;
      jobs = s.jobs ++ record { pattern = c.pattern; all_handlers = longer c.middlewares } ∷ [];
    }
unfolding register
register_room add_func spare c s room h =
    rw (register, h, append_room spare c.middlewares c.handler s.store room) refl

abbrev pub call : {H : Type 0} → String → H → Slice → Call H
call p h s = record { pattern = p; handler = h; middlewares = s }

-- Two calls that share a slice of middlewares with spare capacity write to the same array: when the
-- engine accepts both patterns, the job of the first call runs the handler of the second one too, in
-- place of its own.
pub register_shared :
    {H E : Type 0} (add_func : String → ℕ × Option E) (store : List (List H)) (m n : ℕ) (s : Slice)
    (p q : String) (g h : H)
    → HasRoom store s
    → (add_func p).1 ≡ none
    → (add_func q).1 ≡ none
    → let t =
        register_all add_func
          ((m, call p g s) ∷ (n, call q h s) ∷ [])
          (record { store = store; jobs = [] }) in
      chains t.store t.jobs ≡ (p, elements store s ++ h ∷ []) ∷ (q, elements store s ++ h ∷ []) ∷ []
unfolding register_all
register_shared {H} add_func store m n s p q g h space hp hq =
    let (_, same, space') = elements-wrote s g store space in
    let (last, _, _) = elements-wrote s h (wrote s g store) space' in
    let one : Scheduler H = record {
      store = wrote s g store;
      jobs = record { pattern = p; all_handlers = longer s } ∷ [];
    } in
    ap (λ t. chains t.store t.jobs)
      (ap (λ t. (register add_func n (call q h s) t).1)
          (register_room add_func m (call p g s) (record { store = store; jobs = [] }) space.2 hp)
        ∙ register_room add_func n (call q h s) one space.2 hq)
    ∙ rw (last, same) refl
