-- ===== src/AppServer/Loads.antt =====
-- The callback's loop over its messages: what it counts and what it hands to the processor.
use newtbig.Prelude.{
  ℕ, suc, ◌+◌, ◌%◌, ◌^◌, ◌≡◌, refl, ◌∙◌, ap, true, List, [], ◌∷◌, ◌++◌, map, Option, none, some,
  arith, ◌==◌, nat_eq, if◌then◌else◌, lookup, lookup-insert,
}
use newtbig.Common.{Msg}
use newtbig.Process.{Processor, handle_msg}
use newtbig.AppServer.{
  Server, new_server, or_zero, count_key, Take, message, exit_closed, take_message, call_back,
}

-- Messages with the times that their handlers take.
abbrev pub taken : List (ℕ × Msg) → List Take
taken = map (λ m. message m.0 (some m.1))

unfoldable pub occurrences : ℕ → List (ℕ × Msg) → ℕ
occurrences k [] = 0
occurrences k ((t, msg) ∷ msgs) =
    let rest = occurrences k msgs in if msg.key == k then suc rest else rest

-- The processor after it has handled the messages in order.
unfoldable pub handled : List (ℕ × Msg) → Processor → Processor
handled [] p = p
handled ((t, msg) ∷ msgs) p = handled msgs (handle_msg t p msg).0

-- A count of n, in a map of uint32 with no entry for zero.
abbrev pub tally : ℕ → Option ℕ
tally n = if n == 0 then none else some (n % 2 ^ 32)

tally_suc : (n : ℕ) → some ((or_zero (tally n) + 1) % 2 ^ 32) ≡ tally (n + 1)
tally_suc n = ground arith

count_key-tally :
    (key : ℕ) (s : Server) (f : ℕ → ℕ)
    → ((k : ℕ) → lookup k s.key_map ≡ tally (f k))
    → (k : ℕ) → lookup k (count_key key s).key_map ≡ tally (if key == k then f k + 1 else f k)
unfolding count_key
count_key-tally key s f h k = ground (
  arith,
  lookup-insert key k ((or_zero (lookup key s.key_map) + 1) % 2 ^ 32) s.key_map,
  h key,
  h k,
  tally_suc (f k),
)

loop_counts :
    (msgs : List (ℕ × Msg)) (rest : List Take) (s : Server) (p : Processor) (f : ℕ → ℕ)
    → ((k : ℕ) → lookup k s.key_map ≡ tally (f k))
    → (s' : Server) × (call_back (taken msgs ++ exit_closed ∷ rest) (s, p)
        ≡ ((s', handled msgs p), true))
      × ((k : ℕ) → lookup k s'.key_map ≡ tally (f k + occurrences k msgs))
unfolding call_back handled occurrences take_message
loop_counts [] rest s p f h = (s, refl, λ k. ground (arith, h k))
loop_counts ((t, msg) ∷ msgs) rest s p f h =
    let g : ℕ → ℕ = λ k. if msg.key == k then f k + 1 else f k in
    let (s', e, counts) =
      loop_counts msgs rest (count_key msg.key s) (handle_msg t p msg).0 g
        (count_key-tally msg.key s f h) in
    (s', e, λ k. counts k ∙ ap tally (ground arith))

-- The callback's loop of a new server that takes any messages and then finds its exit closed
-- returns, whatever would follow; the processor has handled the messages in order, and keyMap holds
-- for each key the number of its messages as a uint32, and nothing for a key with none.
pub call_back_counts :
    (msgs : List (ℕ × Msg)) (rest : List Take) (p : Processor)
    → (s : Server) × (call_back (taken msgs ++ exit_closed ∷ rest) (new_server, p)
        ≡ ((s, handled msgs p), true))
      × ((k : ℕ) → lookup k s.key_map ≡ tally (occurrences k msgs))
unfolding new_server lookup
call_back_counts msgs rest p =
    let (s, e, counts) = loop_counts msgs rest new_server p (λ k. 0) (λ k. refl) in
    (s, e, λ k. counts k ∙ ap tally (omega arith))
