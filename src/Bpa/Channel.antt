-- ===== src/Bpa/Channel.antt =====
-- bpa/src/storage/channel.rs: a channel of bundles that spills to storage. Bundles are numbers.
pub mod Steps
pub mod Covered
pub mod Keeps
pub mod Delivery
pub mod Closing
use hardy.Prelude.{
  ℕ, zero, suc, ◌/◌, ◌<◌, ◌≡◌, List, [], ◌∷◌, ◌++◌, Bool, true, false, ◌&&◌, ◌||◌, not, Option,
  none, some, leb, ltb, ◌==◌, length, any, if◌then◌else◌,
}

pub data ChannelState : Type 0 where
  opened draining congested closing : ChannelState

unfoldable pub from_usize : ℕ → Option ChannelState
from_usize value =
    if value == 0
    then some opened
    else if value == 1
    then some draining
    else if value == 2
    then some congested
    else if value == 3
    then some closing
    else none

abbrev pub as_usize : ChannelState → ℕ
as_usize opened = 0
as_usize draining = 1
as_usize congested = 2
as_usize closing = 3

abbrev pub eq_state : ChannelState → ChannelState → Bool
eq_state a b = as_usize a == as_usize b

-- `MetadataStorage::poll_pending`, which a backend implements: some of the pending bundles, at most
-- as many as the limit, and none only if there are none.
pub record Storage : Type 0 where
  pub poll_pending : List ℕ → ℕ → List ℕ
  pub poll_pending-nil : (l : List ℕ) (n : ℕ) → 0 < n → poll_pending l n ≡ [] → l ≡ []

-- Where a call of `send_to` stands: before the swap of the status, before the load, at the match on
-- the loaded state, at the two exchanges, at the notification, and returned.
pub data Sending : Type 0 where
  swapping : ℕ → Sending
  loading : ℕ → Sending
  matching : ℕ → ChannelState → Sending
  degrading : ℕ → Sending
  congesting : ℕ → Sending
  notifying : ℕ → Sending
  refusing : ℕ → Sending
  sent : Sending
  send_error : ℕ → Sending

-- Where `poll_queue` stands: before the first `select_biased!`, at the load, in the loop of exchanges
-- with `current`, before a call of `poll_once`, in the loop of that call with the bundles that it has
-- yet to receive and `pushed_one`, in a send that waits for room, behind the inner loop, at the exchange that opens, in the last
-- `select_biased!`, and returned.
pub data Poller : Type 0 where
  starting : Poller
  entering : Poller
  exchanging : ChannelState → Poller
  polling : Poller
  pushing : List ℕ → Bool → Poller
  parked : ℕ → List ℕ → Bool → Poller
  reopening : Poller
  opening : Poller
  waiting : Poller
  returned : Poller

-- Where `close` stands.
pub data Closer : Type 0 where
  not_closed state_stored tx_closed close_returned : Closer

-- The state of the channel and of the tasks that share it: `Shared`, with `tx` as `buffer` and
-- `tx_is_closed`, and the permit of `notify`; the bundles with the channel's status in storage, and
-- the others; and the bundles that the receiver took and has not claimed.
pub record System : Type 0 where
  pub state : ChannelState
  pub buffer : List ℕ
  pub tx_is_closed : Bool
  pub permit : Bool
  pub pending : List ℕ
  pub others : List ℕ
  pub handed : List ℕ
  pub poller : Poller
  pub closer : Closer
  pub cancelled : Bool

abbrev pub elem : ℕ → List ℕ → Bool
elem b l = any l (λ x. x == b)

abbrev pub without : ℕ → List ℕ → List ℕ
without b [] = []
without b (x ∷ xs) = if x == b then without b xs else x ∷ without b xs

-- The list without the first copy of a bundle
abbrev pub remove : ℕ → List ℕ → List ℕ
remove b [] = []
remove b (x ∷ xs) = if x == b then xs else x ∷ remove b xs

unfoldable pub should_reopen : ℕ → ℕ → Bool
should_reopen buffered cap = leb buffered (cap / 2)

-- `compare_exchange_state`: the state afterwards
unfoldable pub exchange : ChannelState → ChannelState → System → System
exchange expected new y = record y { state = if eq_state y.state expected then new else y.state }

abbrev pub notify_one : System → System
notify_one y = record y { permit = true }

-- A step of `send_to`, where the swap of the status succeeds for one call that holds the bundle. The
-- other outcomes of a swap are steps of their own in Bpa/Channel/Steps.
unfoldable pub send_step : ℕ → Sending → System → System × Sending
unfolding exchange
send_step cap (swapping b) y =
    if elem b y.others
    then (record y { others = without b y.others; pending = y.pending ++ (b ∷ []) }, loading b)
    else (y, sent)
send_step cap (loading b) y = (y, matching b y.state)
send_step cap (matching b opened) y =
    if y.tx_is_closed
    then (y, refusing b)
    else if ltb (length y.buffer) cap
    then (record y { buffer = y.buffer ++ (b ∷ []) }, sent)
    else (y, degrading b)
send_step cap (matching b draining) y = (y, congesting b)
send_step cap (matching b congested) y = (y, notifying b)
send_step cap (matching b closing) y = (y, send_error b)
send_step cap (degrading b) y = (exchange opened draining y, notifying b)
send_step cap (congesting b) y = (exchange draining congested y, notifying b)
send_step cap (notifying b) y = (notify_one y, sent)
send_step cap (refusing b) y = (notify_one y, send_error b)
send_step cap sent y = (y, sent)
send_step cap (send_error b) y = (y, send_error b)

module _ (storage : Storage) (has_expired : ℕ → Bool) where
  -- A step of `poll_queue` and `poll_once`. A step that has to wait leaves the system as it is. A send
  -- that waits for room is not woken by `close`.
  unfoldable pub poll_step : ℕ → System → System
  unfolding exchange should_reopen
  poll_step cap y = elim y.poller [
    | starting ↦
        if y.permit
        then record y { permit = false; poller = entering }
        else if y.cancelled
        then record y { poller = returned }
        else y
    | entering ↦ record y { poller = exchanging y.state }
    | exchanging current ↦
        if eq_state current closing
        then record y { poller = returned }
        else if eq_state y.state current
        then record (exchange current draining y) { poller = polling }
        else record y { poller = exchanging y.state }
    | polling ↦ record y { poller = pushing (storage.poll_pending y.pending cap) false }
    | pushing [] pushed_one ↦ record y { poller = if pushed_one then polling else reopening }
    | pushing (b ∷ rest) pushed_one ↦
        if has_expired b
        then record y { poller = pushing rest pushed_one }
        else if y.tx_is_closed
        then record y { poller = returned }
        else if ltb (length y.buffer) cap
        then record y { buffer = y.buffer ++ (b ∷ []); poller = pushing rest true }
        else record y { poller = parked b rest pushed_one }
    | parked b rest pushed_one ↦
        if ltb (length y.buffer) cap
        then record y { buffer = y.buffer ++ (b ∷ []); poller = pushing rest true }
        else if y.cancelled
        then record y { poller = if pushed_one then polling else reopening }
        else y
    | reopening ↦
        if should_reopen (length y.buffer) cap
        then record y { poller = opening }
        else record y { poller = waiting }
    | opening ↦
        if eq_state y.state draining
        then record (exchange draining opened y) { poller = waiting }
        else record y { poller = entering }
    | waiting ↦
        if y.permit
        then record y { permit = false; poller = entering }
        else if y.cancelled
        then record y { poller = returned }
        else y
    | returned ↦ y
  ]

-- A step of `close`
unfoldable pub close_step : System → System
close_step y = elim y.closer [
  | not_closed ↦ record y { state = closing; closer = state_stored }
  | state_stored ↦ record y { tx_is_closed = true; closer = tx_closed }
  | tx_closed ↦ record (notify_one y) { closer = close_returned }
  | close_returned ↦ y
]

-- `Receiver::recv`
unfoldable pub recv_step : System → System
recv_step y = elim y.buffer [
  | [] ↦ y
  | b ∷ rest ↦ record y { buffer = rest; handed = y.handed ++ (b ∷ []) }
]

-- The receiver swaps the status of a bundle that it took: the bundle leaves the queue.
unfoldable pub claim : ℕ → System → System
claim b y =
    if elem b y.pending
    then record y {
      pending = without b y.pending;
      others = y.others ++ (b ∷ []);
      handed = remove b y.handed;
    }
    else record y { handed = remove b y.handed }

-- Another task swaps the status of a pending bundle, or deletes it.
unfoldable pub sweep : ℕ → Bool → System → System
sweep b keep y = record y {
  pending = without b y.pending;
  others = if keep then y.others ++ (b ∷ []) else y.others;
}

-- `Store::channel`, over what storage holds
unfoldable pub channel : List ℕ → List ℕ → System
channel pending others = record {
  state = opened;
  buffer = [];
  tx_is_closed = false;
  permit = true;
  pending = pending;
  others = others;
  handed = [];
  poller = starting;
  closer = not_closed;
  cancelled = false;
}
