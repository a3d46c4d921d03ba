-- ===== src/Rpc/Ending.antt =====
-- The bounds of a NATS client: its hosts, its full send queue, and what its end leaves.
use newtbig.Prelude.{
  ◌+◌, ◌<◌, ◌≡◌, ◌≢◌, refl, ◌∙◌, ap, true, false, List, [], ◌∷◌, ◌++◌, map, Option, none, some,
  arith, bytes_eq, nat_eq, Bytes, codes, length, length-append, All, ok, err, Option-cases, inl,
  inr,
}
use mathlib.Core.List.{append_assoc}
use newtbig.Common.{Msg}
use newtbig.Options.{Options}
use newtbig.Strings.Split.{Without, Without-append, split_on, split_on-append, split_on_whole}
use newtbig.Rpc.Channel.{queued, blocks, panics, make_channel, put, close}
use newtbig.Rpc.Client.{Client, StreamMsg, url, join_hosts, hosts_text, init_client, send_msg, done}

url-Without : (host : Bytes) → Without 44 host → Without 44 (url host)
url-Without host h = Without-append 44 (codes "nats://") host (omega arith) h

join_hosts_append :
    (a b : Bytes) (hosts : List Bytes) → join_hosts (a ++ b) hosts ≡ a ++ join_hosts b hosts
unfolding join_hosts
join_hosts_append a b [] = refl
join_hosts_append a b (host ∷ rest) =
    ap (λ t. join_hosts t rest) (append_assoc a b (b',' ∷ url host))
    ∙ join_hosts_append a (b ++ b',' ∷ url host) rest

split-join_hosts :
    (host : Bytes) (rest : List Bytes)
    → All (Without 44) (host ∷ rest)
    → split_on 44 (join_hosts (url host) rest) ≡ map url (host ∷ rest)
unfolding join_hosts
split-join_hosts host [] h = split_on_whole 44 (url host) (url-Without host h.0)
split-join_hosts host (next ∷ rest) h =
    ap (split_on 44) (
      join_hosts_append (url host) (b',' ∷ url next) rest
      ∙ ap (λ t. url host ++ t) (join_hosts_append (b',' ∷ []) (url next) rest))
    ∙ split_on-append 44 (url host) (join_hosts (url next) rest) (url-Without host h.0)
    ∙ ap (◌∷◌ (url host)) (split-join_hosts next rest h.1)

-- The text that is given to the NATS library splits at the commas into one address for each host.
pub split-hosts_text :
    (hosts : List Bytes)
    → hosts ≢ []
    → All (Without 44) hosts
    → split_on 44 (hosts_text hosts) ≡ map url hosts
unfolding hosts_text
split-hosts_text [] n h = absurd (n refl)
split-hosts_text (host ∷ rest) n h = split-join_hosts host rest h

module _ (marshal : Msg → Option Bytes) where
  -- SendMsg once, where it does not block.
  unfoldable pub send_one : Bytes → Msg → Client → Option Client
  send_one subj msg c = elim (send_msg marshal subj msg c) [
    | err e ↦ none
    | ok sent ↦ elim sent [
      | queued ch ↦ some (record c { msg_send_chan = ch })
      | blocks ↦ none
      | panics ↦ none
    ]
  ]

  unfoldable pub send_all : List (Bytes × Msg) → Client → Option Client
  send_all [] c = some c
  send_all ((subj, msg) ∷ rest) c = elim (send_one subj msg c) [
    | none ↦ none
    | some c' ↦ send_all rest c'
  ]

  -- A send with room leaves one more message in the queue.
  send_one_room :
      ((m : Msg) → marshal m ≢ none)
      → (subj : Bytes) (msg : Msg) (c : Client) → c.msg_send_chan.closed ≡ false
      → length c.msg_send_chan.queue < c.msg_send_chan.capacity
      → (c' : Client) × (send_one subj msg c ≡ some c')
        × (c'.msg_send_chan.closed ≡ false)
        × (c'.msg_send_chan.capacity ≡ c.msg_send_chan.capacity)
        × (length c'.msg_send_chan.queue ≡ length c.msg_send_chan.queue + 1)
  unfolding send_one send_msg put
  send_one_room total subj msg c o room = elim (Option-cases (marshal msg)) [
    | inl e ↦ absurd (total msg e)
    | inr (body, e) ↦
        let waiting : StreamMsg = record { subj = subj; body = body } in
        (
          record c {
            msg_send_chan = record c.msg_send_chan {
              queue = c.msg_send_chan.queue ++ waiting ∷ [];
            };
          },
          ground (arith, e, o, room),
          o,
          refl,
          length-append c.msg_send_chan.queue (waiting ∷ []),
        )
  ]

  send_all_room :
      ((m : Msg) → marshal m ≢ none)
      → (msgs : List (Bytes × Msg)) (c : Client) → c.msg_send_chan.closed ≡ false
      → length c.msg_send_chan.queue + length msgs ≡ c.msg_send_chan.capacity
      → (c' : Client) × (send_all msgs c ≡ some c')
        × (c'.msg_send_chan.closed ≡ false)
        × (length c'.msg_send_chan.queue ≡ c'.msg_send_chan.capacity)
  unfolding send_all
  send_all_room total [] c o e = (c, refl, o, omega (arith, e))
  send_all_room total ((subj, msg) ∷ rest) c o e =
      let (c', sent, open', cap, len) = send_one_room total subj msg c o (omega (arith, e)) in
      let (c'', all, open'', full) =
        send_all_room total rest c' open' (omega (arith, e, cap, len)) in
      (c'', rw (send_all, sent) all, open'', full)

  -- A send into a full queue blocks.
  send_full :
      ((m : Msg) → marshal m ≢ none)
      → (c : Client) → c.msg_send_chan.closed ≡ false
      → length c.msg_send_chan.queue ≡ c.msg_send_chan.capacity
      → (subj : Bytes) (msg : Msg) → send_msg marshal subj msg c ≡ ok blocks
  unfolding send_msg put
  send_full total c o full subj msg = elim (Option-cases (marshal msg)) [
    | inl e ↦ absurd (total msg e)
    | inr (body, e) ↦ ground (arith, e, o, full)
  ]

  -- With a Marshal that always succeeds, a new client takes as many messages by SendMsg as QMsgLen
  -- says, and then every further SendMsg blocks.
  pub send_queue_fills :
      ((m : Msg) → marshal m ≢ none)
      → (opts : Options) (msgs : List (Bytes × Msg)) → length msgs ≡ opts.q_msg_len
      → (c : Client) × (send_all msgs (init_client opts) ≡ some c)
        × ((subj : Bytes) (msg : Msg) → send_msg marshal subj msg c ≡ ok blocks)
  unfolding init_client make_channel
  send_queue_fills total opts msgs n =
      let (c, all, o, full) = send_all_room total msgs (init_client opts) refl (omega (arith, n)) in
      (c, all, λ subj msg. send_full total c o full subj msg)

  -- What Done leaves closed.
  done_flags :
      (c c' : Client)
      → done c ≡ some c'
      → (c'.is_done ≡ true) × (c'.call_back.closed ≡ true) × (c'.msg_send_chan.closed ≡ true)
  unfolding done close
  done_flags c c' e = (ground arith, ground arith, ground arith)

  send_closed :
      (c : Client) (subj : Bytes) (msg : Msg)
      → c.msg_send_chan.closed ≡ true
      → marshal msg ≢ none
      → send_msg marshal subj msg c ≡ ok panics
  unfolding send_msg put
  send_closed c subj msg o total = elim (Option-cases (marshal msg)) [
    | inl e ↦ absurd (total e)
    | inr (body, e) ↦ ground (arith, e, o)
  ]

  -- With a Marshal that always succeeds, after Done a second Done panics, and so does every
  -- delivery to the callback's channel and every SendMsg.
  pub done_closes :
      ((m : Msg) → marshal m ≢ none)
      → (c c' : Client) → done c ≡ some c'
      → (done c' ≡ none)
        × ((msg : Msg) → put msg c'.call_back ≡ panics)
        × ((subj : Bytes) (msg : Msg) → send_msg marshal subj msg c' ≡ ok panics)
  unfolding done put
  done_closes total c c' e =
      let (finished, back, out) = done_flags c c' e in
      (rw finished refl, λ msg. rw back refl, λ subj msg. send_closed c' subj msg out (total msg))
