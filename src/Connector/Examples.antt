-- ===== src/Connector/Examples.antt =====
-- Runs of pkg/connector/client_send.go and sent_dedup.go on a small thread and table, and each theorem
-- about them there.
use matrimail.Prelude.{
  text_eq, ◌+◌, ◌-◌, List, Option, Text, [], codes, false, refl, some, true, ◌++◌, ◌∷◌, ◌≡◌, ◌≢◌,
}
use matrimail.Connector.SentDedup.{SentDedupQuery, record_sent}
use matrimail.Email.Threading.{EmailThread, empty_thread, member}
use matrimail.Email.Threading.Determine.Participants.{Distinct}
use matrimail.Connector.Send.{
  Address, Alias, ok, key, own_addresses, selves_set, derive_subject_from_body, pick_from_address,
  resolve_reply_all_recipients, resolve_dm_recipients,
}
use matrimail.Connector.Send.Recipients.{keys}
use matrimail.Connector.Send.ReplyAll.{
  everyone, resolve_reply_all_recipients-Distinct, resolve_reply_all_recipients_complete,
}

-- a parser that takes any text for a bare address
abbrev plain : Text → Option Address
plain s = some (record { name = []; address = s })

abbrev ann : Address
ann = record { name = []; address = codes "ann" }

abbrev bob : Address
bob = record { name = []; address = codes "bob" }

abbrev work : Alias
work = record { email = codes "Me@work"; name = codes "Me" }

abbrev own : List Text
own = own_addresses (codes "me") (work ∷ [])

abbrev lunch : EmailThread
lunch = record empty_thread {
  references = codes "m1" ∷ [];
  last_from = codes "ann";
  last_to = codes "me" ∷ codes "ann" ∷ [];
  last_cc = codes "bob" ∷ [];
  last_delivered_to = codes "me@WORK";
}

reply_all : resolve_reply_all_recipients plain lunch own ≡ ok (ann ∷ [], bob ∷ [])
unfolding resolve_reply_all_recipients own_addresses member selves_set
    matrimail.Connector.Send.collect matrimail.Connector.Send.parse_addr_if_allowed
    matrimail.Prelude.Strings.trim_space matrimail.Prelude.Strings.to_lower
    matrimail.Prelude.Strings.text_eq
reply_all = refl

reply_only : resolve_dm_recipients plain lunch own ≡ ok (ann ∷ [])
unfolding resolve_dm_recipients own_addresses member selves_set
    matrimail.Connector.Send.parse_addr_if_allowed matrimail.Prelude.Strings.trim_space
    matrimail.Prelude.Strings.to_lower matrimail.Prelude.Strings.text_eq
reply_only = refl

first_line : derive_subject_from_body (codes " Lunch? \nToday") ≡ codes "Lunch?"
unfolding derive_subject_from_body matrimail.Prelude.Strings.trim_space
    matrimail.Prelude.Strings.cut_at
first_line = refl

from_work : pick_from_address (codes "me") (work ∷ []) lunch own ≡ (codes "Me@work", codes "Me")
unfolding pick_from_address own_addresses member selves_set matrimail.Connector.Send.matching_alias
    matrimail.Prelude.Strings.trim_space matrimail.Prelude.Strings.to_lower
    matrimail.Prelude.Strings.text_eq
from_work = refl

own_me : member (codes "me") (selves_set own) ≡ true
unfolding own_addresses selves_set member matrimail.Prelude.Strings.trim_space
    matrimail.Prelude.Strings.to_lower matrimail.Prelude.Strings.text_eq
own_me = refl

resolve_reply_all_recipients-Distinct_example :
    ((ann ∷ bob ∷ []) ≢ [])
    × Distinct (keys (ann ∷ bob ∷ []))
    × (member (codes "me") (keys (ann ∷ bob ∷ [])) ≡ false)
resolve_reply_all_recipients-Distinct_example =
    resolve_reply_all_recipients-Distinct plain lunch own (ann ∷ []) (bob ∷ []) (codes "me")
      reply_all own_me

bob_named : member (codes "bob") ((lunch.last_from ∷ lunch.last_to) ++ lunch.last_cc) ≡ true
unfolding member matrimail.Prelude.Strings.text_eq
bob_named = refl

bob_other : member (key bob) (selves_set own) ≡ false
unfolding own_addresses selves_set member matrimail.Prelude.Strings.trim_space
    matrimail.Prelude.Strings.to_lower matrimail.Prelude.Strings.text_eq
bob_other = refl

resolve_reply_all_recipients_complete_example :
    (p : List Address × List Address) × (resolve_reply_all_recipients plain lunch own ≡ ok p)
    × (member (key bob) (keys (everyone p)) ≡ true)
unfolding matrimail.Prelude.Strings.trim_space
resolve_reply_all_recipients_complete_example =
    resolve_reply_all_recipients_complete plain lunch own (codes "bob") bob bob_named refl bob_other

abbrev table : SentDedupQuery
table = record { bridge_id = codes "mail"; rows = [] }

abbrev noted : SentDedupQuery
noted = record table {
  rows =
      record {
        bridge_id = codes "mail";
        receiver = codes "me";
        message_id = codes "m2";
        matrix_evt_id = codes "e";
        sent_at = 9;
      }
      ∷ [];
}

records : record_sent 9 (codes "me") (codes "m2") (codes "e") table ≡ some noted
unfolding record_sent matrimail.Connector.SentDedup.upsert
records = refl
