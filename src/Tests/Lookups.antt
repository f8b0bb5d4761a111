-- ===== src/Tests/Lookups.antt =====
-- The lookups of files and hosts.
use bootd.Base.{◌≡◌, ◌≢◌, refl, none, some, [], ◌∷◌, get_elem?, codes, strcasecmp_eq}
use bootd.Server.Run.{done, fault}
use bootd.Services.Ids
use bootd.Services.Ids.{allows}
use bootd.Util.Files.{i_file_match, util_name2file}
use bootd.Util.Files.Ranked.{ranked, util_name2file-ranked}
use bootd.Util.Walk.Found.{first_host, named_as}
use bootd.Listener.Registry.{listener_delete, mem_id, search_fd}
use bootd.Listener.Registry.Deleted.{listener_delete-result}
use bootd.Server.State.{World}
use bootd.Services.Table.{service_init, initial_services, added}
use bootd.Bootparam.{SvcReq, getfile}
use bootd.Bootparam.Replies.{getfile-both}
use bootd.Host.Files.{host_file_new, host_file_add}
use bootd.Host.Files.Named.{Holds, host_file_add-FilesOk}
use bootd.Tests.Data.{
  station, kernel, any_file, transfer, world, world-IsRegistry, registry_list, link_listener,
  tftp_listener,
}

unix_found : util_name2file (some station) Ids.tftp (some (codes "unix")) 0 ≡ some kernel
unfolding util_name2file allows
unix_found = refl

alias_found : util_name2file (some station) Ids.tftp (some (codes "k")) 0 ≡ some kernel
unfolding util_name2file allows
alias_found = refl

wildcard_second : util_name2file (some station) Ids.tftp (some (codes "unix")) 1 ≡ some any_file
unfolding util_name2file allows
wildcard_second = refl

kernel_not_for_rarp : util_name2file (some station) Ids.rarp (some (codes "k")) 1 ≡ none
unfolding util_name2file allows
kernel_not_for_rarp = refl

wildcard_matches : i_file_match any_file Ids.tftp (some (codes "unix")) ≢ 0
unfolding i_file_match allows
wildcard_matches e = cc

util_name2file-ranked_example :
    util_name2file (some station) Ids.tftp (some (codes "unix")) 1
    ≡ get_elem? (ranked Ids.tftp (some (codes "unix")) (any_file ∷ kernel ∷ [])) 1
util_name2file-ranked_example = util_name2file-ranked station Ids.tftp (some (codes "unix")) 1

station_by_name : first_host (named_as (codes "STATION")) registry_list ≡ some 1
unfolding strcasecmp_eq
station_by_name = refl

listener_delete-result_example :
    listener_delete (some link_listener) world
    ≡ done tt (record world { g_listeners = tftp_listener ∷ []; freed = 2 ∷ [] })
unfolding mem_id
listener_delete-result_example =
    listener_delete-result world link_listener (((λ e. cc), tt), (tt, tt)) refl

listener_delete_head : listener_delete (some tftp_listener) world ≡ fault
unfolding listener_delete
listener_delete_head = refl

service_init_all : service_init ≡ added initial_services
unfolding service_init
service_init_all = refl

-- A request whose transport has port 3
abbrev at_three : SvcReq
at_three = record { rq_xprt = record { xp_port = 3 } }

getfile-both_example :
    getfile (codes "station") (codes "k") at_three world
    ≡ done
        (some (record {
          server_name = none;
          server_path = some (codes "/any");
          server_address = 0x0a000001;
        }))
        world
unfolding allows search_fd util_name2file strcasecmp_eq
getfile-both_example =
    getfile-both (world-IsRegistry transfer) (codes "station") (codes "k") at_three

host_file_add-FilesOk_example :
    (v : World) × (host_file_add 1
        (record host_file_new { path = some (codes "/boot/KERNEL") })
        world
      ≡ done tt v)
    × Holds 1 v
unfolding strcasecmp_eq
host_file_add-FilesOk_example =
    host_file_add-FilesOk world 1 station refl
      (codes "*", refl, (codes "unix", refl, refl, tt), (codes "unix", refl, tt, tt))
      (record host_file_new { path = some (codes "/boot/KERNEL") }) (codes "/boot/KERNEL") refl
