-- ===== src/Services/Table/Found.antt =====
-- Lookups behind `service_add`.
use bootd.Base.{◌≡◌, refl, false, some, List, [], ◌∷◌, ◌++◌, Text, strcmp_eq_refl, arith}
use bootd.Server.State.{Service}
use bootd.Services.Table.{service_search_by_name, name_taken, service_add, added}

search-append_new :
    (s : Service) (l : List Service)
    → name_taken s.name l ≡ false
    → service_search_by_name s.name (l ++ s ∷ []) ≡ some s
unfolding service_search_by_name name_taken
search-append_new s [] h = simp (strcmp_eq_refl s.name)
search-append_new s (n ∷ ns) h = ground (arith, search-append_new s ns)

search-append_old :
    (name : Text) (s t : Service) (l : List Service)
    → service_search_by_name name l ≡ some t
    → service_search_by_name name (l ++ s ∷ []) ≡ some t
unfolding service_search_by_name
search-append_old name s t [] h = cc
search-append_old name s t (n ∷ ns) h = ground (arith, search-append_old name s t ns)

-- What `service_add` makes of the list where it adds.
add-append :
    (s : Service) (l l' : List Service)
    → service_add s l ≡ added l'
    → (l' ≡ l ++ s ∷ []) × (name_taken s.name l ≡ false)
unfolding service_add name_taken
add-append s [] l' e = (ground arith, refl)
add-append s (n ∷ ns) l' e = (ground arith, ground arith)

-- Where `service_add` adds a service, that service is found by its name, and each name that was
-- found before leads to the same service as before.
pub service_add-found :
    (s : Service) (l l' : List Service)
    → service_add s l ≡ added l'
    → (service_search_by_name s.name l' ≡ some s)
      × ((name : Text) (t : Service)
          → service_search_by_name name l ≡ some t
          → service_search_by_name name l' ≡ some t)
service_add-found s l l' e =
    let (same, free) = add-append s l l' e in
    (rw same (search-append_new s l free), λ name t h. rw same (search-append_old name s t l h))
