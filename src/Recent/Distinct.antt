-- ===== src/Recent/Distinct.antt =====
-- The keys of the set of recently_updated_set.cpp under `add` and `fetch`.
use gossip_net.Prelude.{
  ℕ, ◌+◌, ◌≡◌, refl, sym, ◌∙◌, Bool, inl, inr, true, false, [], ◌∷◌, ltb, leb, length, ◌==◌,
  Bool-cases, Option-cases, if◌then◌else◌,
}
use mathlib.Core.Path.{subst}
use gossip_net.Outcome.{Outcome, ok, throws, fault, ◌>>=◌}
use gossip_net.Node.{Node, lt}
use gossip_net.Table.{Slot, find, keys, assign, insert_at}
use gossip_net.Table.Laws.{
  IsDistinct, IsDistinct-erase, IsDistinct-assign, IsDistinct-insert_at, Apart-nil,
}
use gossip_net.Recent.{
  RecentlyUpdatedSet, Fetched, Pops, fresh, add_known, add, erased, spread, drain, fetch,
}
use gossip_net.Recent.Fate.{nothing, IsDistinct-fetch_all}

chosen-IsDistinct :
    (r : Outcome Bool) (a m m' : RecentlyUpdatedSet)
    → IsDistinct a
    → IsDistinct m
    → (r >>= λ newer. ok (if newer then a else m)) ≡ ok m'
    → IsDistinct m'
chosen-IsDistinct (ok true) a m m' da dm e = let q : a ≡ m' = cc in subst (λ x. IsDistinct x) q da
chosen-IsDistinct (ok false) a m m' da dm e = let q : m ≡ m' = cc in subst (λ x. IsDistinct x) q dm
chosen-IsDistinct (throws x) a m m' da dm e = cc
chosen-IsDistinct (fault x) a m m' da dm e = cc

-- `add` leaves no id twice.
pub add-IsDistinct :
    (slot : Slot) (node : Node) (m m' : RecentlyUpdatedSet)
    → IsDistinct m
    → add slot node m ≡ ok m'
    → IsDistinct m'
add-IsDistinct slot node m m' d e = elim (Option-cases (find node.id m)) [
  | inl new ↦
      let i = slot (keys m) node.id in
      let added : add slot node m ≡ ok (insert_at i (node.id, fresh node) m) =
        unfold add in rw (new, add) refl in
      let q : insert_at i (node.id, fresh node) m ≡ m' = cc in
      subst (λ x. IsDistinct x) q (IsDistinct-insert_at i node.id (fresh node) m d new)
  | inr (mem, old) ↦
      let known : add slot node m ≡ add_known mem node m = unfold add in rw (old, add) refl in
      chosen-IsDistinct (lt mem.node node) (assign node.id (fresh node) m) m m'
        (IsDistinct-assign node.id (fresh node) m d) d (unfold add_known in (sym known ∙ e))
]

drain-IsDistinct :
    (n max : ℕ) (queue : RecentlyUpdatedSet) (s : Fetched)
    → IsDistinct s.members
    → IsDistinct (drain n max queue s).members
unfolding drain erased spread
drain-IsDistinct n max [] s d = d
drain-IsDistinct n max ((k, x) ∷ queue) s d =
    let gone = IsDistinct-erase k s.members d in
    let counted = IsDistinct-assign k (record x { counter = x.counter + 1 }) s.members d in
    elim (Bool-cases (ltb max (x.counter + 1))) [
      | inl over ↦ rw over (drain-IsDistinct n max queue (erased k x s) gone)
      | inr again ↦ elim (Bool-cases (length (spread k x s).recent == n)) [
        | inl full ↦ rw (again, full) counted
        | inr more ↦ rw (again, more) (drain-IsDistinct n max queue (spread k x s) counted)
      ]
    ]

-- A fetch from a set of distinct ids leaves one.
pub fetch-IsDistinct :
    (pops : Pops) (n max : ℕ) (m : RecentlyUpdatedSet)
    → IsDistinct m
    → IsDistinct (fetch pops n max m).members
unfolding fetch
fetch-IsDistinct pops n max m d = elim (Bool-cases (n == 0)) [
  | inl none_asked ↦ rw none_asked d
  | inr asked ↦ elim (Bool-cases (leb (length m) n)) [
    | inl enough ↦ rw (asked, enough) (IsDistinct-fetch_all max m nothing d tt (Apart-nil m))
    | inr few ↦ rw (asked, few) (drain-IsDistinct n max (pops m) _ d)
  ]
]
