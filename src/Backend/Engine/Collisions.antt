-- ===== src/Backend/Engine/Collisions.antt =====
-- Two services whose pier and name run together to one text share one controller of the pool
-- (`handle::operator<` of src/backend/message.h, `m_pool` of src/backend/server.cpp).
use webpier.Base.{String, ◌<>◌, false, some, List, [], ◌≡◌, arith, is_empty, ok, eq_refl}
use webpier.Map.{find}
use webpier.Map.Distinct.{find_same, find-update-emplace}
use webpier.Store.Types.{Config, Service}
use webpier.Backend.Message.{Handle, handle_key}
use webpier.Backend.Message.Orders.{same_key_shift}
use webpier.Backend.Controller.{Controller, restart}
use webpier.Backend.Engine.{Pool, Home, load_one, engage_one, engage_loaded}

-- When a part of the text stands at the end of the one pier and at the start of the other name,
-- engaging the second service restarts the first one's controller with the second one's settings.
pub engage_one-collides :
    (split : String → List String) (home : Home) (pier shift service : String) (pool : Pool)
    (c : Controller) (conf : Config) (serv : Service)
    → find (record { pier = pier <> shift; service = service }) pool ≡ some c
    → load_one home (record { pier = pier; service = shift <> service }) ≡ ok (conf, serv)
    → is_empty serv.name ≡ false
    → find
        (record { pier = pier <> shift; service = service })
        (engage_one split home (record { pier = pier; service = shift <> service }) pool).pool
      ≡ some (restart split conf serv c)
unfolding engage_one engage_loaded
engage_one-collides split home pier shift service pool c conf serv f e n =
    let first : Handle = record { pier = pier <> shift; service = service } in
    let second : Handle = record { pier = pier; service = shift <> service } in
    let shared = same_key_shift pier shift service in
    rw e (
      ground (
        arith,
        shared,
        find_same first second pool shared,
        find_same first second (engage_loaded split (ok (conf, serv)) second pool).pool shared,
        find-update-emplace second second (restart split conf serv) [] pool,
        eq_refl (pier <> (shift <> service)),
      ))
