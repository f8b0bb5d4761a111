-- ===== src/Listener/Registry/Added.antt =====
-- `listener_add` of a listener with a name, and what keeps a list of listeners well-formed.
use bootd.Base.{
  ℕ, suc, ◌<◌, ◌≡◌, ◌≢◌, refl, ◌⊎◌, inl, inr, false, some, List, [], ◌∷◌, ◌++◌, arith, Bool-cases,
  Text,
}
use bootd.Server.State.{Listener, World}
use bootd.Server.Run.{done}
use bootd.Listener.Registry.{fd_taken, insert_last, listener_add, mem_id}
use bootd.Listener.Registry.Deleted.{Absent, Distinct}

-- The addresses of the listeners are below a number.
abbrev pub IdsBelow : ℕ → List Listener → Type 0
IdsBelow n [] = Unit {0}
IdsBelow n (l ∷ ls) = (l.id < n) × IdsBelow n ls

-- None of the listeners is released.
abbrev pub Alive : List Listener → List ℕ → Type 0
Alive [] freed = Unit {0}
Alive (l ∷ ls) freed = (mem_id l.id freed ≡ false) × Alive ls freed

abbrev pub AllBelow : ℕ → List ℕ → Type 0
AllBelow n [] = Unit {0}
AllBelow n (x ∷ xs) = (x < n) × AllBelow n xs

-- The listeners of the list are distinct and not released, and `next_id` is a new address.
pub record ListenersOk (w : World) : Type 0 where
  pub distinct : Distinct w.g_listeners
  pub alive : Alive w.g_listeners w.freed
  pub below : IdsBelow w.next_id w.g_listeners
  pub freed_below : AllBelow w.next_id w.freed

Absent-append :
    (id : ℕ) (ls : List Listener) (l : Listener)
    → Absent id ls
    → l.id ≢ id
    → Absent id (ls ++ l ∷ [])
Absent-append id [] l a ne = (ne, tt)
Absent-append id (n ∷ ns) l a ne = (a.0, Absent-append id ns l a.1 ne)

Distinct-append :
    (ls : List Listener) (l : Listener) → Distinct ls → IdsBelow l.id ls → Distinct (ls ++ l ∷ [])
Distinct-append [] l d b = (tt, tt)
Distinct-append (n ∷ ns) l d b =
    (Absent-append n.id ns l d.0 (λ e. omega arith), Distinct-append ns l d.1 b.1)

mem_id-below : (n : ℕ) (xs : List ℕ) → AllBelow n xs → mem_id n xs ≡ false
unfolding mem_id
mem_id-below n [] b = refl
mem_id-below n (x ∷ xs) b = ground (arith, mem_id-below n xs b.1)

Alive-append :
    (ls : List Listener) (l : Listener) (freed : List ℕ)
    → Alive ls freed
    → mem_id l.id freed ≡ false
    → Alive (ls ++ l ∷ []) freed
Alive-append [] l freed a e = (e, tt)
Alive-append (n ∷ ns) l freed a e = (a.0, Alive-append ns l freed a.1 e)

IdsBelow-append :
    (n : ℕ) (ls : List Listener) (l : Listener)
    → IdsBelow n ls
    → l.id < n
    → IdsBelow n (ls ++ l ∷ [])
IdsBelow-append n [] l b h = (h, tt)
IdsBelow-append n (x ∷ xs) l b h = (b.0, IdsBelow-append n xs l b.1 h)

IdsBelow-suc : (n : ℕ) (ls : List Listener) → IdsBelow n ls → IdsBelow (suc n) ls
IdsBelow-suc n [] b = tt
IdsBelow-suc n (x ∷ xs) b = (omega arith, IdsBelow-suc n xs b.1)

AllBelow-suc : (n : ℕ) (xs : List ℕ) → AllBelow n xs → AllBelow (suc n) xs
AllBelow-suc n [] b = tt
AllBelow-suc n (x ∷ xs) b = (omega arith, AllBelow-suc n xs b.1)

-- A listener of the next address may be added; it is, unless its descriptor is taken.
pub listener_add-ListenersOk :
    (l : Listener) (n : Text) (w : World) (k : ℕ)
    → l.name ≡ some n
    → l.id ≡ w.next_id
    → ListenersOk w
    → (ls : List Listener) × (listener_add
          (some l)
          (record w { calls = k; next_id = suc w.next_id })
        ≡ done tt (record w { calls = k; next_id = suc w.next_id; g_listeners = ls }))
      × ListenersOk (record w { calls = k; next_id = suc w.next_id; g_listeners = ls })
      × ((ls ≡ w.g_listeners) ⊎ (ls ≡ w.g_listeners ++ l ∷ []))
unfolding listener_add insert_last
listener_add-ListenersOk l n w k en ei ok =
    let below = IdsBelow-suc w.next_id w.g_listeners ok.below in
    let freed_below = AllBelow-suc w.next_id w.freed ok.freed_below in
    elim (Bool-cases (fd_taken l.fd w.g_listeners)) [
      | inl taken ↦ (
        w.g_listeners,
        simp (en, taken),
        record {
          distinct = ok.distinct;
          alive = ok.alive;
          below = below;
          freed_below = freed_below;
        },
        inl refl,
      )
      | inr free ↦ (
        w.g_listeners ++ l ∷ [],
        simp (en, free),
        record {
          distinct = Distinct-append w.g_listeners l ok.distinct (rw ei ok.below);
          alive =
              Alive-append w.g_listeners l w.freed ok.alive
                (rw ei (mem_id-below w.next_id w.freed ok.freed_below));
          below = IdsBelow-append (suc w.next_id) w.g_listeners l below (omega arith);
          freed_below = freed_below;
        },
        inr refl,
      )
    ]

pub ListenersOk-none :
    (w : World) (k : ℕ)
    → ListenersOk w
    → ListenersOk (record w { calls = k; next_id = suc w.next_id })
ListenersOk-none w k ok = record {
  distinct = ok.distinct;
  alive = ok.alive;
  below = IdsBelow-suc w.next_id w.g_listeners ok.below;
  freed_below = AllBelow-suc w.next_id w.freed ok.freed_below;
}
