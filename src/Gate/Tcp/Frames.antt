-- ===== src/Gate/Tcp/Frames.antt =====
-- What a connection sends, and what its peer receives of it.
use newtbig.Prelude.{
  ℕ, ◌+◌, ◌-◌, ◌%◌, ◌≤◌, ◌≡◌, refl, sym, ap, ◌∙◌, false, ◌++◌, some, arith, nat_eq, if◌then◌else◌,
  Bytes, length, take, drop, length-append, take-append, drop-append, length-take, ok, err,
}
use mathlib.Core.List.{append_assoc}
use newtbig.Options.{Options}
use newtbig.Gate.Tcp.{
  Connect, ConnectError, size_err, head_err, data_err, put_size, read_size, overwrite, write_at,
  on_init, on_send, read_full, receive_data, is_bad_size,
}
use newtbig.Gate.Tcp.Buffer.{
  head_width, capacity, length-put_size, read_size-put_size, take-write_at, overwrite_front,
  length-overwrite, length-write_at, length-make_bytes,
}

-- A head size that holds the head: 2, or 4 and more.
abbrev pub IsHeadSize : Options → Type 0
IsHeadSize opts = head_width opts ≤ opts.net_head_size

-- An open connection with a whole cache.
pub record IsReady (c : Connect) : Type 0 where
  pub whole : length c.cache ≡ c.opts.max_packet_size
  pub is_open : c.is_close ≡ false

-- What stands before the data in a frame.
pub head_of : Connect → ℕ → Bytes
head_of c sz =
    put_size c.opts sz
    ++ take (c.opts.net_head_size - length (put_size c.opts sz))
        (drop (length (put_size c.opts sz)) c.cache)

-- The connection after a send.
abbrev pub after_send : Connect → Bytes → Connect
after_send c d = record c {
  cache = write_at c.opts.net_head_size d (overwrite (put_size c.opts (length d)) c.cache);
}

pub read_full_exact : (x : ConnectError) (a b : Bytes) → read_full x (length a) (a ++ b) ≡ ok (a, b)
unfolding read_full
read_full_exact x a b = ground (arith, length-append a b, take-append a b, drop-append a b)

-- What is received of a head that announces `n` bytes.
receive_head :
    (e : Connect) (h tail : Bytes) (n : ℕ)
    → e.is_close ≡ false
    → length h ≡ e.opts.net_head_size
    → read_size e.opts h ≡ some n
    → receive_data e (h ++ tail)
      ≡ (if is_bad_size e.opts n then err size_err else read_full data_err n tail)
unfolding receive_data
receive_head e h tail n o l s = ground (arith, read_full_exact head_err h tail)

module _ (c : Connect) (r : IsReady c) (d : Bytes) (sized : IsHeadSize c.opts)
    (fits : is_bad_size c.opts (length d) ≡ false) where
  within : (length d + c.opts.net_head_size ≤ length c.cache)
  within = ground (arith, r.whole)

  head_fits : length (put_size c.opts (length d)) ≤ c.opts.net_head_size
  head_fits = rw length-put_size sized

  front :
      take c.opts.net_head_size (overwrite (put_size c.opts (length d)) c.cache)
      ≡ head_of c (length d)
  unfolding head_of
  front =
      overwrite_front c.opts.net_head_size (put_size c.opts (length d)) c.cache
        (omega (arith, within, head_fits)) head_fits

  length-head_of : length (head_of c (length d)) ≡ c.opts.net_head_size
  length-head_of =
      ap length (sym front)
      ∙ length-take c.opts.net_head_size (overwrite (put_size c.opts (length d)) c.cache)
          (omega (arith, within, length-overwrite (put_size c.opts (length d)) c.cache))

  frame_parts :
      take (length d + c.opts.net_head_size) (after_send c d).cache ≡ head_of c (length d) ++ d
  frame_parts =
      let written = overwrite (put_size c.opts (length d)) c.cache in
      let total : length d + c.opts.net_head_size ≡ c.opts.net_head_size + length d = omega arith in
      rw total (
        take-write_at c.opts.net_head_size d written
          (omega (arith, within, length-overwrite (put_size c.opts (length d)) c.cache))
        ∙ ap (λ h. h ++ d) front)

  -- What OnSend does with data of an allowed size.
  pub on_send_frame : on_send c d ≡ ok (after_send c d, head_of c (length d) ++ d)
  unfolding on_send
  on_send_frame = ground (arith, r.is_open, within, head_fits, frame_parts)

  pub after_send-IsReady : IsReady (after_send c d)
  after_send-IsReady = record {
    whole =
        length-write_at c.opts.net_head_size d _
        ∙ length-overwrite (put_size c.opts (length d)) c.cache
        ∙ r.whole;
    is_open = r.is_open;
  }

  -- What the peer reads of the frame, before it knows whether the data is all there.
  pub receive_frame :
      (e : Connect) (rest : Bytes)
      → e.is_close ≡ false
      → e.opts ≡ c.opts
      → receive_data e ((head_of c (length d) ++ d) ++ rest) ≡ (
          if is_bad_size c.opts (length d % capacity c.opts)
          then err size_err
          else read_full data_err (length d % capacity c.opts) (d ++ rest))
  receive_frame e rest o same =
      let announced : read_size e.opts (head_of c (length d)) ≡ some (length d % capacity c.opts) =
        rw same (unfold head_of in read_size-put_size c.opts (length d) _) in
      rw append_assoc (
        receive_head e (head_of c (length d)) (d ++ rest) (length d % capacity c.opts) o
          (length-head_of ∙ ap (λ o. o.net_head_size) (sym same)) announced
        ∙ rw same refl)

-- A connection starts open, with a whole cache.
pub on_init-IsReady : (opts : Options) → IsReady (on_init opts)
unfolding on_init
on_init-IsReady opts = record { whole = length-make_bytes opts.max_packet_size; is_open = refl }
