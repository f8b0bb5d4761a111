-- ===== src/Listener/Registry/Deleted.antt =====
-- `listener_delete` against the removal of a listener from a list.
use bootd.Base.{
  ℕ, ◌≡◌, ◌≢◌, refl, sym, false, Option, none, some, List, [], ◌∷◌, ◌==◌, if◌then◌else◌, arith, inl,
  inr, Bool-cases, Option-cases,
}
use bootd.Server.State.{Listener, World}
use bootd.Server.Run.{Run, done, fault}
use bootd.Listener.Registry.{unlink, delete_behind, delete_from, listener_delete, mem_id, cleanup}

-- No listener of the list has this address.
abbrev pub Absent : ℕ → List Listener → Type 0
Absent id [] = Unit {0}
Absent id (n ∷ ns) = (n.id ≢ id) × Absent id ns

-- No two listeners of the list have the same address.
abbrev pub Distinct : List Listener → Type 0
Distinct [] = Unit {0}
Distinct (n ∷ ns) = Absent n.id ns × Distinct ns

-- The list less the listeners at an address.
abbrev pub without : ℕ → List Listener → List Listener
without id [] = []
without id (n ∷ ns) = let rest = without id ns in if n.id == id then rest else n ∷ rest

without-Absent : (id : ℕ) (ns : List Listener) → Absent id ns → without id ns ≡ ns
without-Absent id [] a = refl
without-Absent id (n ∷ ns) a = ground (arith, without-Absent id ns a.1)

-- The listeners that are left, or all of them where the loop finds none.
abbrev left_of : List Listener → Option (List Listener) → List Listener
left_of ns none = ns
left_of ns (some rest) = rest

unlink-without :
    (id : ℕ) (ns : List Listener) → Distinct ns → left_of ns (unlink id ns) ≡ without id ns
unfolding unlink
unlink-without id [] d = refl
unlink-without id (n ∷ ns) d = elim (Bool-cases (n.id == id)) [
  | inl same ↦ let e : n.id ≡ id = ground arith in ground (arith, without-Absent id ns)
  | inr other ↦ elim (Option-cases (unlink id ns)) [
    | inl missing ↦ ground (arith, unlink-without id ns d.1)
    | inr (rest, found) ↦ ground (arith, unlink-without id ns d.1)
  ]
]

-- The world less one listener, which is released.
abbrev pub removed : World → Listener → World
removed w l = record w { g_listeners = without l.id w.g_listeners; freed = l.id ∷ w.freed }

-- What `listener_delete` comes to, by the list.
abbrev pub delete_result : World → Listener → List Listener → Run (Unit {0})
delete_result w l [] = done tt (removed w l)
delete_result w l (n ∷ ns) = if n.id == l.id then fault else done tt (removed w l)

module _ (w : World) (l : Listener) (e : mem_id l.id w.freed ≡ false) where
  delete_behind-removed :
      (n : Listener) (ns : List Listener) (o : Option (List Listener))
      → w.g_listeners ≡ n ∷ ns
      → (n.id == l.id) ≡ false
      → left_of ns o ≡ without l.id ns
      → delete_behind l n o w ≡ done tt (removed w l)
  unfolding delete_behind cleanup
  delete_behind-removed n ns none el other r =
      let all : without l.id w.g_listeners ≡ w.g_listeners = rw el (simp (other, sym r)) in
      simp (e, all)
  delete_behind-removed n ns (some rest) el other r = rw (el, e, other, sym r) refl

  delete_from-result :
      (ns : List Listener)
      → w.g_listeners ≡ ns
      → Distinct ns
      → delete_from l ns w ≡ delete_result w l ns
  unfolding delete_from cleanup mem_id
  delete_from-result [] el d = rw (el, e) refl
  delete_from-result (n ∷ ns) el d = elim (Bool-cases (n.id == l.id)) [
    | inl same ↦ ground arith
    | inr other ↦
        simp
          (other, delete_behind-removed n ns (unlink l.id ns) el other (unlink-without l.id ns d.1))
  ]

-- In a list of distinct listeners, `listener_delete` of one that is not released yet removes it,
-- keeps the others in their order, and releases it once, also where the list does not have it. At
-- the head of the list it faults: the branch falls through, and the listener is released twice.
pub listener_delete-result :
    (w : World) (l : Listener)
    → Distinct w.g_listeners
    → mem_id l.id w.freed ≡ false
    → listener_delete (some l) w ≡ delete_result w l w.g_listeners
unfolding listener_delete
listener_delete-result w l d e = delete_from-result w l e w.g_listeners refl d
