-- ===== src/Realtime/Hub.antt =====
-- hub.go of backend/internal/realtime/ws. A client object is shared between the hub and its two
-- pumps: `clients` holds the objects by their ids, which are fresh uuids, and `by_id` and `by_topic`
-- are the maps of the hub. The map of maps `byTopic` is a map on pairs: an empty inner map is as
-- good as none.
use smartclass.Prelude.{
  ℕ, Bool, true, false, not, ◌&&◌, Option, none, some, List, [], ◌∷◌, ◌++◌, ◌==◌, nat_eq, text_eq,
  pair_eq, ltb, if◌then◌else◌, length,
}
use smartclass.Prelude.Dict.{Dict, empty, get, put, remove, map_values, rows}
use smartclass.Prelude.Text.{Text}
use smartclass.Realtime.Events.{Event}

-- `queue` is the channel `send`, oldest first.
pub record Client : Type 0 where
  pub topics : List Text
  pub queue : List Event
  pub closed : Bool

pub record Hub : Type 0 where
  pub clients : Dict ℕ Client
  pub by_id : Dict ℕ (Unit {0})
  pub by_topic : Dict (Text × ℕ) (Unit {0})

abbrev pub new_hub : Hub
new_hub = record { clients = empty; by_id = empty; by_topic = empty }

-- make(chan []byte, 64)
abbrev pub capacity : ℕ
capacity = 64

abbrev pub new_client : List Text → Client
new_client topics = record { topics = topics; queue = []; closed = false }

unfoldable pub subscribe : ℕ → List Text → Dict (Text × ℕ) (Unit {0}) → Dict (Text × ℕ) (Unit {0})
subscribe id [] d = d
subscribe id (t ∷ ts) d = put (subscribe id ts d) (t, id) tt

unfoldable pub unsubscribe : ℕ → List Text → Dict (Text × ℕ) (Unit {0}) → Dict (Text × ℕ) (Unit {0})
unsubscribe id [] d = d
unsubscribe id (t ∷ ts) d = remove (unsubscribe id ts d) (t, id)

-- Register
unfoldable pub register : ℕ → Client → Hub → Hub
unfolding subscribe
register id cl h = record {
  clients = put h.clients id cl;
  by_id = put h.by_id id tt;
  by_topic = subscribe id cl.topics h.by_topic;
}

abbrev topics_of : Option Client → List Text
topics_of none = []
topics_of (some cl) = cl.topics

abbrev pub closed_at : ℕ → ℕ → Client → Client
closed_at id i cl = if i == id then record cl { closed = true } else cl

-- Unregister, with the close of the client
unfoldable pub unregister : ℕ → Hub → Hub
unfolding unsubscribe
unregister id h = record {
  clients = map_values (closed_at id) h.clients;
  by_id = remove h.by_id id;
  by_topic = unsubscribe id (topics_of (get h.clients id)) h.by_topic;
}

abbrev pub is_subscribed : Option (Unit {0}) → Bool
is_subscribed none = false
is_subscribed (some u) = true

-- What Publish does to one client: it sends to an open client whose channel has room. (Unregister
-- takes the subscriptions away before it closes the client, so that no closed client is subscribed.)
abbrev pub offered : Dict (Text × ℕ) (Unit {0}) → Event → ℕ → Client → Client
offered by_topic e id cl =
    if is_subscribed (get by_topic (e.topic, id)) && not cl.closed && ltb (length cl.queue) capacity
    then record cl { queue = cl.queue ++ e ∷ [] }
    else cl

-- Publish; the order of the clients does not matter, since each has its own channel.
unfoldable pub publish : Event → Hub → Hub
publish e h = record h { clients = map_values (offered h.by_topic e) h.clients }

abbrev pub tail_of : List Event → List Event
tail_of [] = []
tail_of (e ∷ es) = es

abbrev pub popped_at : ℕ → ℕ → Client → Client
popped_at id i cl = if i == id then record cl { queue = tail_of cl.queue } else cl

-- One turn of writePump that takes a message off the channel
unfoldable pub take_message : ℕ → Hub → Hub
take_message id h = record h { clients = map_values (popped_at id) h.clients }

-- ClientCount
unfoldable pub client_count : Hub → ℕ
client_count h = length (rows h.by_id)
