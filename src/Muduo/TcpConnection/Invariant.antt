-- ===== src/Muduo/TcpConnection/Invariant.antt =====
-- What holds of a connection between two calls, and the bytes that go through it.
use alexproject.Common.{
  ℕ, ◌≡◌, ◌≢◌, refl, Bool, true, false, ◌||◌, List, [], ◌∷◌, ◌++◌, arith, length, append_assoc, ap,
  sym, ◌∙◌,
}
use alexproject.Muduo.Buffer.{Buffer, readable_bytes}
use alexproject.Muduo.Buffer.Invariant.{contents, length-contents}
use alexproject.Muduo.Buffer.Invariant
use alexproject.Muduo.Channel.{with_reading, with_writing, without_writing, is_writing}
use alexproject.Muduo.Channel.Events.{IsMask, events_lem}
use alexproject.Muduo.TcpConnection.{
  TcpConnection, k_disconnected, Effect, wrote, update_channel, remove_channel, shutdown_write,
  queue_write_complete, queue_high_water, queue_send, queue_shutdown, run_connection_callback,
  run_message_callback, run_close_callback, log_error,
}

-- The bytes that wait in the output buffer.
abbrev pub pending : TcpConnection → List ℕ
pending c = contents c.output_buffer

-- Before the connection is closed, the channel asks for output exactly while bytes wait; afterwards it does not.
pub record Inv (c : TcpConnection) : Type 0 where
  pub output_valid : Invariant.IsValid c.output_buffer
  pub input_valid : Invariant.IsValid c.input_buffer
  pub mask : IsMask c.events
  pub writing : is_writing c.events ≡ true → pending c ≢ []
  pub idle : is_writing c.events ≡ false → c.state ≢ k_disconnected → pending c ≡ []
  pub closed : c.state ≡ k_disconnected → is_writing c.events ≡ false

-- The bytes that the kernel took, in order.
abbrev pub written : List Effect → List ℕ
written [] = []
written (wrote chunk ∷ es) = chunk ++ written es
written (_ ∷ es) = written es

-- Whether the write side of the socket is shut down.
abbrev pub shuts : List Effect → Bool
shuts [] = false
shuts (shutdown_write ∷ es) = true
shuts (_ ∷ es) = shuts es

-- What the user is told about the level of the output buffer.
abbrev pub marks : List Effect → List ℕ
marks [] = []
marks (queue_high_water n ∷ es) = n ∷ marks es
marks (_ ∷ es) = marks es

pub written-append : (es fs : List Effect) → written (es ++ fs) ≡ written es ++ written fs
written-append [] fs = refl
written-append (wrote chunk ∷ es) fs = rw (written-append es fs, append_assoc)
written-append (update_channel e ∷ es) fs = written-append es fs
written-append (remove_channel ∷ es) fs = written-append es fs
written-append (shutdown_write ∷ es) fs = written-append es fs
written-append (queue_write_complete ∷ es) fs = written-append es fs
written-append (queue_high_water n ∷ es) fs = written-append es fs
written-append (queue_send l ∷ es) fs = written-append es fs
written-append (queue_shutdown ∷ es) fs = written-append es fs
written-append (run_connection_callback ∷ es) fs = written-append es fs
written-append (run_message_callback ∷ es) fs = written-append es fs
written-append (run_close_callback ∷ es) fs = written-append es fs
written-append (log_error ∷ es) fs = written-append es fs

pub shuts-append : (es fs : List Effect) → shuts (es ++ fs) ≡ shuts es || shuts fs
shuts-append [] fs = refl
shuts-append (e ∷ es) fs = ground (arith, shuts-append es fs)

-- An empty buffer is one with no readable byte.
pub empty_iff :
    (b : Buffer)
    → Invariant.IsValid b
    → (readable_bytes b ≡ 0 → contents b ≡ []) × (contents b ≡ [] → readable_bytes b ≡ 0)
empty_iff b v = (
  λ h. none_left (contents b) (length-contents b v ∙ h),
  λ h. sym (length-contents b v) ∙ ap length h,
)
  where
    none_left : (xs : List ℕ) → length xs ≡ 0 → xs ≡ []
    none_left [] h = refl
    none_left (x ∷ xs) h = absurd (omega arith)

-- The channel's events after the two operations on output.
pub with_writing_lem :
    (e : ℕ) → IsMask e → IsMask (with_writing e) × (is_writing (with_writing e) ≡ true)
with_writing_lem e m = let a = (events_lem e m).2 in (a.0, a.2)

pub without_writing_lem :
    (e : ℕ) → IsMask e → IsMask (without_writing e) × (is_writing (without_writing e) ≡ false)
without_writing_lem e m = let a = (events_lem e m).3 in (a.0, a.2)

pub with_reading_lem :
    (e : ℕ) → IsMask e → IsMask (with_reading e) × (is_writing (with_reading e) ≡ is_writing e)
with_reading_lem e m = let a = (events_lem e m).0 in (a.0, a.2)

pub append-ne-nil : {A : Type 0} (xs ys : List A) → ys ≢ [] → xs ++ ys ≢ []
append-ne-nil [] ys h e = h e
append-ne-nil (x ∷ xs) ys h e = cc
