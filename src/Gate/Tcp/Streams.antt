-- ===== src/Gate/Tcp/Streams.antt =====
-- Round trips of one message and of a stream, and where they end.
use newtbig.Prelude.{
  ℕ, zero, suc, ◌%◌, ◌≤◌, ◌<◌, ◌≡◌, ◌≢◌, refl, sym, ap, ◌∙◌, false, List, [], ◌∷◌, ◌++◌, some,
  arith, ltb, nat_eq, Bytes, length, take, drop, length-take, Bool-cases, Option-cases,
  Result-cases, inl, inr, Result, ok, ◌>>=◌, All,
}
use mathlib.Core.List.{append_assoc}
use newtbig.Options.{Options}
use newtbig.Gate.Tcp.{
  Connect, ConnectError, head_err, data_err, read_size, on_send, read_full, receive_data,
  is_bad_size,
}
use newtbig.Gate.Tcp.Buffer.{capacity}
use newtbig.Gate.Tcp.Frames.{
  IsHeadSize, IsReady, head_of, after_send, on_send_frame, after_send-IsReady, receive_frame,
  read_full_exact,
}

capacity_mod : (o : Options) (n : ℕ) → n < capacity o → n % capacity o ≡ n
capacity_mod o n h = ground arith

capacity_drop : (o : Options) (n : ℕ) → capacity o ≤ n → n % capacity o ≢ n
capacity_drop o n h e = ground arith

take-drop : (n : ℕ) (s : Bytes) → take n s ++ drop n s ≡ s
take-drop zero s = refl
take-drop (suc n) [] = refl
take-drop (suc n) (c ∷ s) = ap (◌∷◌ c) (take-drop n s)

read_full_parts :
    (x : ConnectError) (n : ℕ) (s a b : Bytes)
    → read_full x n s ≡ ok (a, b)
    → (length a ≡ n) × (s ≡ a ++ b)
unfolding read_full
read_full_parts x n s a b h = elim (Bool-cases (ltb (length s) n)) [
  | inl e ↦ absurd (ground arith)
  | inr e ↦ ground (arith, length-take n s (ground arith), take-drop n s)
]

-- Two ends of one connection: they have the same options, and both are open.
pub record ArePeers (c e : Connect) : Type 0 where
  pub ready : IsReady c
  pub listening : e.is_close ≡ false
  pub same : e.opts ≡ c.opts
  pub sized : IsHeadSize c.opts

-- Data that a connection sends whole.
abbrev pub Fits : Options → Bytes → Type 0
Fits o d = (is_bad_size o (length d) ≡ false) × (length d < capacity o)

module _ (c e : Connect) (d : Bytes) (p : ArePeers c e) (f : Fits c.opts d) where
  after_send-ArePeers : ArePeers (after_send c d) e
  after_send-ArePeers = record {
    ready = after_send-IsReady c p.ready d p.sized f.0;
    listening = p.listening;
    same = p.same;
    sized = p.sized;
  }

  receive_back :
      (rest : Bytes) → receive_data e ((head_of c (length d) ++ d) ++ rest) ≡ ok (d, rest)
  receive_back rest =
      receive_frame c p.ready d p.sized f.0 e rest p.listening p.same
      ∙ rw (capacity_mod c.opts (length d) f.1, f.0) (read_full_exact data_err d rest)

-- OnSend succeeds on data of an allowed size that its head can count, and OnReceive of the peer
-- gives back exactly that data and leaves what follows, in both byte orders.
pub on_send_receive :
    (c e : Connect) (d rest : Bytes)
    → ArePeers c e
    → Fits c.opts d
    → (c' : Connect) × (frame : Bytes) × (on_send c d ≡ ok (c', frame))
      × ArePeers c' e
      × (c'.opts ≡ c.opts)
      × (receive_data e (frame ++ rest) ≡ ok (d, rest))
on_send_receive c e d rest p f = (
  after_send c d,
  head_of c (length d) ++ d,
  on_send_frame c p.ready d p.sized f.0,
  after_send-ArePeers c e d p f,
  refl,
  receive_back c e d p f rest,
)

-- Between two open ends with the same options and a head size that holds the head, data within
-- MaxPacketSize that is longer than the head can count is sent without an error, and what is
-- received of its frame is never that data, whatever follows.
pub on_send_truncates :
    (c e : Connect) (d rest left : Bytes)
    → ArePeers c e
    → is_bad_size c.opts (length d) ≡ false
    → capacity c.opts ≤ length d
    → (c' : Connect) × (frame : Bytes) × (on_send c d ≡ ok (c', frame))
      × (receive_data e (frame ++ rest) ≢ ok (d, left))
on_send_truncates c e d rest left p f long = (
  after_send c d,
  head_of c (length d) ++ d,
  on_send_frame c p.ready d p.sized f,
  λ h. ground (
    arith,
    receive_frame c p.ready d p.sized f e rest p.listening p.same,
    capacity_drop c.opts (length d) long,
    read_full_parts data_err (length d % capacity c.opts) (d ++ rest) d left,
  ),
)

-- Data that is received has an allowed size, stands in the stream behind a head that announces this
-- size, and what follows it in the stream is left.
pub receive_data_sound :
    (e : Connect) (s d rest : Bytes)
    → receive_data e s ≡ ok (d, rest)
    → (is_bad_size e.opts (length d) ≡ false)
      × ((head : Bytes) × (s ≡ head ++ (d ++ rest))
          × (length head ≡ e.opts.net_head_size)
          × (read_size e.opts head ≡ some (length d)))
unfolding receive_data
receive_data_sound e s d rest h = elim (Result-cases (read_full head_err e.opts.net_head_size s)) [
  | inr (x, f) ↦ absurd (ground arith)
  | inl ((head, tail), f) ↦ elim (Option-cases (read_size e.opts head)) [
    | inl g ↦ absurd (ground arith)
    | inr (n, g) ↦ elim (Bool-cases (is_bad_size e.opts n)) [
      | inl b ↦ absurd (ground arith)
      | inr b ↦
          let (lh, sh) = read_full_parts head_err e.opts.net_head_size s head tail f in
          let (ld, sd) = read_full_parts data_err n tail d rest (ground arith) in
          (rw ld b, (head, sh ∙ ap (λ t. head ++ t) sd, lh, g ∙ ap some (sym ld)))
    ]
  ]
]

-- A server that sends several messages, and a client that receives so many.
pub send_all : Connect → List Bytes → Result ConnectError (Connect × Bytes)
send_all c [] = ok (c, [])
send_all c (d ∷ ds) = do
  sent ← on_send c d
  more ← send_all sent.0 ds
  ok (more.0, sent.1 ++ more.1)

pub receive_all : Connect → ℕ → Bytes → Result ConnectError (List Bytes × Bytes)
receive_all e zero s = ok ([], s)
receive_all e (suc n) s = do
  read ← receive_data e s
  more ← receive_all e n read.1
  ok (read.0 ∷ more.0, more.1)

-- Between two open ends with the same options and a head size that holds the head, any messages of
-- allowed sizes that the head can count, sent one after another, are received one by one, in order
-- and unchanged, and what follows them is left.
pub send_all-receive_all :
    (c e : Connect) (ds : List Bytes) (rest : Bytes)
    → ArePeers c e
    → All (Fits c.opts) ds
    → (c' : Connect) × (wire : Bytes) × (send_all c ds ≡ ok (c', wire))
      × (receive_all e (length ds) (wire ++ rest) ≡ ok (ds, rest))
unfolding send_all receive_all
send_all-receive_all c e [] rest p f = (c, [], refl, refl)
send_all-receive_all c e (d ∷ ds) rest p f =
    let (last, wire, sent, got) =
      send_all-receive_all (after_send c d) e ds rest (after_send-ArePeers c e d p f.0) f.1 in
    let back = receive_back c e d p f.0 (wire ++ rest) in
    (
      last,
      (head_of c (length d) ++ d) ++ wire,
      rw (on_send_frame c p.ready d p.sized f.0.0) (rw sent refl),
      rw append_assoc (ground (arith, back, got)),
    )
