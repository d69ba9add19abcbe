-- ===== src/State/Tests.antt =====
-- The theorems about pkg/state/state.go on the store in memory, with a codec that keeps every
-- string.
use soyaos.Prelude.{◌≡◌, ◌≢◌, refl, [], Bytes, ok, err, codes, ◌==◌, if◌then◌else◌}
use soyaos.Store.Key.{composite_key}
use soyaos.Store.Memory.{memory}
use soyaos.State.PlainCodec.{plain_codec}
use soyaos.State.Versions.{current, swap_exact}
use soyaos.State.Isolation.{get-perform_ne, get-perform_err}
use soyaos.State.Swaps.{lost_update}
use soyaos.State.Stale.{stale_swap}
use soyaos.State.{
  Entry, Codec, conflict, valid, namespace, make_entry, get, put, compare_and_swap, delete, Call,
  put_call, swap_call, delete_call, target, perform, bump, read,
}

abbrev agent : Bytes
agent = codes "agent"

abbrev estate : Bytes
estate = codes "estatemuse"

abbrev topic : Bytes
topic = codes "topic"

-- One entry, at version 1.
abbrev db : memory.Db
db = (put memory plain_codec [] 7 agent estate topic (codes "A")).1

other_place : ◌≢◌ {A = Bytes × Bytes × Bytes} (agent, estate, topic) (agent, codes "other", topic)
other_place e = cc (e)

get-perform_ne_example :
    get memory plain_codec
      (perform memory plain_codec db (delete_call agent estate topic)).1
      agent
      (codes "other")
      topic
    ≡ get memory plain_codec db agent (codes "other") topic
get-perform_ne_example =
    get-perform_ne memory plain_codec db (delete_call agent estate topic) agent (codes "other")
      topic tt other_place

get-perform_err_example :
    get memory plain_codec
      (perform memory plain_codec db (swap_call 9 agent estate topic 4 [])).1
      agent
      estate
      topic
    ≡ get memory plain_codec db agent estate topic
unfolding perform compare_and_swap put get composite_key valid soyaos.State.swap_over read
    soyaos.State.put_over soyaos.State.write
get-perform_err_example =
    get-perform_err memory plain_codec db (swap_call 9 agent estate topic 4 []) agent estate topic
      tt refl

swap_exact_example :
    (compare_and_swap memory plain_codec [] 8 agent estate topic 0 (codes "B")).0 ≡ (
      if current (get memory plain_codec [] agent estate topic) == 0
      then ok (make_entry agent estate topic (codes "B") (bump 0) 8)
      else err conflict)
unfolding valid get read composite_key
swap_exact_example =
    swap_exact memory plain_codec [] 8 agent estate topic 0 (codes "B") _ refl tt tt refl

lost_update_example :
    let d' = (compare_and_swap memory plain_codec [] 8 agent estate topic 0 (codes "B")).1 in
    compare_and_swap memory plain_codec d' 9 agent estate topic 0 (codes "C") ≡ (err conflict, d')
unfolding compare_and_swap get read composite_key valid soyaos.State.swap_over soyaos.State.write
lost_update_example =
    lost_update memory plain_codec [] agent estate topic 0 8 9 (codes "B") (codes "C") tt
      (refl, refl, refl) refl

stale_swap_example :
    let d' =
      (put memory plain_codec
        (delete memory plain_codec db agent estate topic).1
        8
        agent
        estate
        topic
        (codes "B")).1 in
    (compare_and_swap memory plain_codec d' 9 agent estate topic 1 (codes "C")).0
    ≡ ok (make_entry agent estate topic (codes "C") 2 9)
unfolding delete valid
stale_swap_example =
    stale_swap memory plain_codec db agent estate topic 8 9 (codes "B") (codes "C") _ _ tt tt
      (refl, refl, refl) refl refl refl refl
