-- ===== src/Transport/Channel.antt =====
-- `ZeroCopyChannel` of crates/entangle-transport/src/channel.rs: two queues of pointer offsets and a
-- state byte. An operation here runs alone.
pub mod Refine
pub mod Known
mod Tests
use entangle.Prelude.{
  ℕ, zero, suc, ◌+◌, ◌-◌, ◌*◌, ◌/◌, ◌%◌, ◌^◌, ◌≤◌, ◌<◌, bit_and, bit_or, min, max, ◌≡◌, refl, sym,
  ap, ap₂, subst, ◌∙◌, ◌≢◌, ◌↔◌, ◌⊎◌, inl, inr, Bool, true, false, not, ◌&&◌, ◌||◌, Option, none,
  some, List, [], ◌∷◌, ◌++◌, map, arith, dec_lt, ℕ_discrete, ltb, leb, ◌==◌, if◌then◌else◌, ltb→lt,
  lt→ltb, le→leb, ==→eq, eq→==, ne→==, Bool-cases, Option-cases, length, get_elem?, get_or, set,
  replicate, length-replicate, length-append, length-set, get_elem?-eq-get_or, get_or-set_self,
  get_or-set_ne, store, store-in_range, range_from, All, Distinct, All-map, length-range_from,
  length-map, get_or-map_range, All-range_from, Distinct-range_from, pigeonhole, Result, ok, err,
  map_err, assert, ◌>>=◌, ◌>>◌,
}
use mathlib.Core.Option
use entangle.Lockfree.SpscQueue
use entangle.Lockfree.SpscQueue.{SpscQueue}
use entangle.Transport.Contracts.{
  ChannelState, creating, connected, disconnected, SendError, broken, queue_full, ReceiveError,
  empty, connection_broken,
}
use entangle.Transport.PointerOffset.{PointerOffset, raw, from_raw}

pub record ZeroCopyChannel : Type 0 where
  pub send_queue : SpscQueue
  pub return_queue : SpscQueue
  pub state_byte : ℕ
  pub sender_id : ℕ
  pub receiver_id : ℕ

abbrev pub code : ChannelState → ℕ
code creating = 0
code connected = 1
code disconnected = 2

unfoldable pub new : ℕ → ℕ → ℕ → ZeroCopyChannel
new capacity sender_id receiver_id = record {
  send_queue = SpscQueue.new capacity;
  return_queue = SpscQueue.new capacity;
  state_byte = code creating;
  sender_id = sender_id;
  receiver_id = receiver_id;
}

unfoldable pub connect : ZeroCopyChannel → ZeroCopyChannel
connect ch = record ch { state_byte = code connected }

unfoldable pub disconnect : ZeroCopyChannel → ZeroCopyChannel
disconnect ch = record ch { state_byte = code disconnected }

-- The match of `state` on the byte.
unfoldable pub state_of : ℕ → ChannelState
state_of byte = if byte == 0 then creating else if byte == 1 then connected else disconnected

abbrev pub state : ZeroCopyChannel → ChannelState
state ch = state_of ch.state_byte

abbrev pub is_disconnected : ChannelState → Bool
is_disconnected disconnected = true
is_disconnected _ = false

abbrev sent : ZeroCopyChannel → Bool × SpscQueue → Result SendError (Unit {0}) × ZeroCopyChannel
sent ch (true, q) = (ok tt, record ch { send_queue = q })
sent ch (false, q) = (err queue_full, record ch { send_queue = q })

-- `none` is the panic of an index out of bounds.
unfoldable pub send :
    PointerOffset → ZeroCopyChannel → Option (Result SendError (Unit {0}) × ZeroCopyChannel)
send offset ch =
    if is_disconnected (state ch)
    then some (err broken, ch)
    else SpscQueue.push (raw offset) ch.send_queue >>= λ answer. some (sent ch answer)

abbrev received :
    ZeroCopyChannel → Option ℕ × SpscQueue → Result ReceiveError PointerOffset × ZeroCopyChannel
received ch (none, q) = (err empty, record ch { send_queue = q })
received ch (some word, q) = (ok (from_raw word), record ch { send_queue = q })

unfoldable pub receive :
    ZeroCopyChannel → Option (Result ReceiveError PointerOffset × ZeroCopyChannel)
receive ch =
    if is_disconnected (state ch) && SpscQueue.is_empty ch.send_queue
    then some (err connection_broken, ch)
    else SpscQueue.pop ch.send_queue >>= λ answer. some (received ch answer)

unfoldable pub reclaim : ZeroCopyChannel → Option (Option PointerOffset × ZeroCopyChannel)
reclaim ch = SpscQueue.pop ch.return_queue >>= λ (word, q).
    some (Option.map from_raw word, record ch { return_queue = q })

-- `return_offset` tries until the push succeeds. Between two tries the other side has its turn, in
-- which it may reclaim: `turns` are those turns, one more try follows each, and a loop that none of
-- the tries ended is still spinning.
pub data Spin : Type 0 where
  returned : Spin
  spinning : Spin

abbrev pub has_returned : Spin → Bool
has_returned returned = true
has_returned spinning = false

abbrev turn : Bool → ZeroCopyChannel → Option ZeroCopyChannel
turn true ch = reclaim ch >>= λ (word, ch'). some ch'
turn false ch = some ch

unfoldable pub return_offset :
    List Bool → PointerOffset → ZeroCopyChannel → Option (Spin × ZeroCopyChannel)
return_offset [] offset ch = SpscQueue.push (raw offset) ch.return_queue >>= λ (pushed, q).
    some (if pushed then returned else spinning, record ch { return_queue = q })
return_offset (reclaims ∷ turns) offset ch =
    SpscQueue.push (raw offset) ch.return_queue >>= λ (pushed, q).
    let again = turn reclaims (record ch { return_queue = q }) >>= return_offset turns offset in
    if pushed then some (returned, record ch { return_queue = q }) else again

abbrev pub pending_count : ZeroCopyChannel → ℕ
pending_count ch = SpscQueue.len ch.send_queue

abbrev pub return_count : ZeroCopyChannel → ℕ
return_count ch = SpscQueue.len ch.return_queue
