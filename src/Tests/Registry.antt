-- ===== src/Tests/Registry.antt =====
-- The theorems on manager.c and protocol.c, at the inputs of Tests/Data.
use disqueue.Base.{Bool, ℕ, ◌≡◌, refl, true, false, none, some, codes, ◌⊎◌, arith, find, strcase_eq}
use disqueue.Protocol.{
  protocol_create_base, created, failed, protocol_create_success, key_key, value_key, success_key,
  message_key, payload_key,
}
use disqueue.Protocol.Fields.{protocol_create_base-get, protocol_create_success_owns, response}
use disqueue.Manager.Uuid.{sample, queue_get_uuid, hex_digits, hex_digit, htonl, htons, load_le}
use disqueue.Manager.Uuid.Scan.{parse_uuid}
use disqueue.Manager.Uuid.RoundTrip.{IsUuid, cleared, parse_uuid-queue_get_uuid}
use disqueue.Manager.Registry.{manager_queue_get}
use disqueue.Manager.Registry.Names.{
  HasMemory, made, with_made, manager_queue_get-long, manager_queue_get-twice,
}
use disqueue.Tests.Data.{
  document_get, no_queues, sixteen, platform_of, documents, documents-IsJsonC, apple, Document,
  text, truth, member, null_member, empty_object,
}

pub sample-IsUuid : IsUuid sample
sample-IsUuid = record { sixteen = refl; bytes = omega arith }

pub platform-HasMemory : (long : ℕ) → HasMemory (platform_of long)
platform-HasMemory long = record { manager_queue_ok = refl; queue_ok = refl; stack_sixteen = refl }

parse_uuid-queue_get_uuid_example : parse_uuid 4 sixteen (queue_get_uuid 4 sample) ≡ some sample
parse_uuid-queue_get_uuid_example = parse_uuid-queue_get_uuid sixteen sample refl sample-IsUuid

manager_queue_get-twice_example :
    (manager_queue_get (platform_of 4) (some (queue_get_uuid 4 sample)) true no_queues
      ≡ (some (made 4 sample no_queues), with_made 4 sample no_queues))
    × ((c : Bool)
        → manager_queue_get
            (platform_of 4)
            (some (queue_get_uuid 4 sample))
            c
            (with_made 4 sample no_queues)
          ≡ (some (made 4 sample no_queues), with_made 4 sample no_queues))
unfolding find
manager_queue_get-twice_example =
    manager_queue_get-twice (platform_of 4) sample no_queues refl (platform-HasMemory 4)
      sample-IsUuid refl

manager_queue_get-long_example :
    let m' = with_made 8 (cleared sample) no_queues in
    let name = queue_get_uuid 8 sample in
    (manager_queue_get (platform_of 8) (some name) true no_queues
      ≡ (some (made 8 (cleared sample) no_queues), m'))
    × (manager_queue_get (platform_of 8) (some name) false m' ≡ (none, m'))
    × (manager_queue_get (platform_of 8) (some name) true m'
        ≡ (some (made 8 (cleared sample) m'), with_made 8 (cleared sample) m'))
unfolding find strcase_eq queue_get_uuid hex_digits hex_digit htonl htons load_le
manager_queue_get-long_example =
    manager_queue_get-long (platform_of 8) sample no_queues refl (platform-HasMemory 8)
      sample-IsUuid refl refl

abbrev item_document : Document
item_document = member (member empty_object key_key (text apple)) value_key (text (codes "v"))

abbrev response_document : Document
response_document =
    member (member (null_member empty_object message_key) success_key (truth true)) payload_key
      (text apple)

protocol_create_base-get_example :
    (document_get response_document success_key ≡ some (some (truth true)))
    × (document_get response_document message_key ≡ some none)
    × (document_get response_document payload_key ≡ some (some (text apple)))
unfolding protocol_create_base
protocol_create_base-get_example =
    protocol_create_base-get documents documents-IsJsonC (λ n. true) true none (some (text apple))
      response_document refl

protocol_create_success_owns_example :
    (protocol_create_success documents (λ n. false) (some (text apple))
      ≡ created (response documents true none (some (text apple))))
    ⊎ (protocol_create_success documents (λ n. false) (some (text apple)) ≡ failed 1)
protocol_create_success_owns_example =
    protocol_create_success_owns documents (λ n. false) (text apple)
