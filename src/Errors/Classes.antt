-- ===== src/Errors/Classes.antt =====
-- Which errors count as those of a closed connection, in errors.go, and what wrapping by
-- `fmt.Errorf("...: %w", err)` does to them.
use go_muxrpc.Base.{
  ℕ, zero, suc, ◌≡◌, refl, ap, sym, subst, ◌∙◌, ◌↔◌, ◌⊎◌, inl, inr, true, false, Text, arith,
  Bool-cases,
}
use go_muxrpc.Errors.{
  Err, Sentinel, sentinel, errno, syscall_error, op_error, no_such_method, wrong_stream_type,
  call_error, new, wrap, path_error, eof, unexpected_eof, os_closed, closed_pipe, canceled,
  deadline_exceeded, session_terminated, sink_closed, eos, errors_is, already_closed, equals, same,
  sentinel_no, is_closed_path, is_broken_pipe,
}

-- `s` stands at the end of the chain that `Unwrap` follows from an error.
pub data Wraps (s : Sentinel) : Err → Type 0 where
  itself : Wraps s (sentinel s)
  in_path : (m : Text) (e : Err) → Wraps s e → Wraps s (path_error m e)
  in_op : (m : Text) (e : Err) → Wraps s e → Wraps s (op_error m e)
  in_syscall : (m : Text) (e : Err) → Wraps s e → Wraps s (syscall_error m e)
  in_wrap : (m : Text) (e : Err) → Wraps s e → Wraps s (wrap m e)

-- EPIPE of a system call of a network operation.
pub data BrokenPipe : Err → Type 0 where
  broken_pipe : (m n t : Text) → BrokenPipe (op_error m (syscall_error n (errno 32 t)))

-- One of the three errors of a closed connection is wrapped.
abbrev pub WrapsClosed : Err → Type 0
WrapsClosed e = Wraps eof e ⊎ (Wraps os_closed e ⊎ Wraps closed_pipe e)

sentinel_of : ℕ → Sentinel
sentinel_of zero = eof
sentinel_of (suc zero) = unexpected_eof
sentinel_of (suc (suc zero)) = os_closed
sentinel_of (suc (suc (suc zero))) = closed_pipe
sentinel_of (suc (suc (suc (suc zero)))) = canceled
sentinel_of (suc (suc (suc (suc (suc zero))))) = deadline_exceeded
sentinel_of (suc (suc (suc (suc (suc (suc zero)))))) = session_terminated
sentinel_of (suc (suc (suc (suc (suc (suc (suc zero))))))) = sink_closed
sentinel_of _ = eos

numbered : (s : Sentinel) → sentinel_of (sentinel_no s) ≡ s
unfolding sentinel_of sentinel_no
numbered eof = refl
numbered unexpected_eof = refl
numbered os_closed = refl
numbered closed_pipe = refl
numbered canceled = refl
numbered deadline_exceeded = refl
numbered session_terminated = refl
numbered sink_closed = refl
numbered eos = refl

same_is : (s t : Sentinel) → same s t ≡ true → s ≡ t
unfolding same
same_is s t h =
    let equal : sentinel_no s ≡ sentinel_no t = ground (arith, h) in
    sym (numbered s) ∙ ap sentinel_of equal ∙ numbered t

same_self : (s : Sentinel) → same s s ≡ true
unfolding same
same_self s = ground arith

is-Wraps : (e : Err) (s : Sentinel) → errors_is e s ≡ true → Wraps s e
unfolding errors_is
is-Wraps (sentinel t) s h = subst (λ k. Wraps k (sentinel t)) (same_is t s h) itself
is-Wraps (path_error m e) s h = in_path m e (is-Wraps e s h)
is-Wraps (op_error m e) s h = in_op m e (is-Wraps e s h)
is-Wraps (syscall_error m e) s h = in_syscall m e (is-Wraps e s h)
is-Wraps (wrap m e) s h = in_wrap m e (is-Wraps e s h)
is-Wraps (errno n m) s h = absurd (cc h)
is-Wraps (no_such_method m) s h = absurd (cc h)
is-Wraps (wrong_stream_type c) s h = absurd (cc h)
is-Wraps (call_error c) s h = absurd (cc h)
is-Wraps (new m) s h = absurd (cc h)

sentinel_in : (s : Sentinel) (e : Err) → Wraps s e → errors_is e s ≡ true
unfolding errors_is
sentinel_in s _ itself = same_self s
sentinel_in s _ (in_path m e w) = sentinel_in s e w
sentinel_in s _ (in_op m e w) = sentinel_in s e w
sentinel_in s _ (in_syscall m e w) = sentinel_in s e w
sentinel_in s _ (in_wrap m e w) = sentinel_in s e w

is-BrokenPipe : (e : Err) → is_broken_pipe e ≡ true → BrokenPipe e
unfolding is_broken_pipe
is-BrokenPipe (op_error m (syscall_error n (errno k t))) h =
    let code : 32 ≡ k = ground (arith, h) in
    subst (λ c. BrokenPipe (op_error m (syscall_error n (errno c t)))) code (broken_pipe m n t)
is-BrokenPipe e h = absurd (cc h)

pipe_known : (e : Err) → BrokenPipe e → is_broken_pipe e ≡ true
unfolding is_broken_pipe
pipe_known _ (broken_pipe m n t) = refl

-- The test for a `PathError` adds nothing to `errors.Is`, which unwraps it.
closed_path_is : (e : Err) → is_closed_path e ≡ true → errors_is e os_closed ≡ true
unfolding is_closed_path errors_is equals same
closed_path_is (path_error m (sentinel s)) h = h
closed_path_is e h = ground arith

closed-Wraps : (e : Err) → already_closed e ≡ true → is_broken_pipe e ≡ false → WrapsClosed e
unfolding already_closed
closed-Wraps e h no_pipe = elim (Bool-cases (errors_is e eof)) [
  | inl a ↦ inl (is-Wraps e eof a)
  | inr a ↦ elim (Bool-cases (errors_is e os_closed)) [
    | inl b ↦ inr (inl (is-Wraps e os_closed b))
    | inr b ↦ inr (inr (is-Wraps e closed_pipe (ground (arith, h, closed_path_is e))))
  ]
]

wraps_closed : (e : Err) → WrapsClosed e → already_closed e ≡ true
unfolding already_closed
wraps_closed e (inl w) = rw (sentinel_in eof e w) refl
wraps_closed e (inr (inl w)) = ground (arith, sentinel_in os_closed e w)
wraps_closed e (inr (inr w)) = ground (arith, sentinel_in closed_pipe e w)

pipe_closed : (e : Err) → BrokenPipe e → already_closed e ≡ true
unfolding already_closed
pipe_closed e b = ground (arith, pipe_known e b)

no_wrapped_pipe : (m : Text) (e : Err) → is_broken_pipe (wrap m e) ≡ false
unfolding is_broken_pipe
no_wrapped_pipe m e = refl

unwrapped : (m : Text) (e : Err) → WrapsClosed (wrap m e) → WrapsClosed e
unwrapped _ _ (inl (in_wrap m e w)) = inl w
unwrapped _ _ (inr (inl (in_wrap m e w))) = inr (inl w)
unwrapped _ _ (inr (inr (in_wrap m e w))) = inr (inr w)

rewrapped : (m : Text) (e : Err) → WrapsClosed e → WrapsClosed (wrap m e)
rewrapped m e (inl w) = inl (in_wrap m e w)
rewrapped m e (inr (inl w)) = inr (inl (in_wrap m e w))
rewrapped m e (inr (inr w)) = inr (inr (in_wrap m e w))

-- An error counts as "already closed" exactly when it wraps io.EOF, os.ErrClosed or io.ErrClosedPipe, at
-- any depth, or is a network operation's error around a system call's error around EPIPE, and nothing
-- else; once it is wrapped, it counts exactly when it wraps one of the three, so that a broken pipe no
-- longer does.
pub already_closed-wrap :
    (m : Text) (e : Err)
    → ((already_closed e ≡ true) ↔ (WrapsClosed e ⊎ BrokenPipe e))
      × ((already_closed (wrap m e) ≡ true) ↔ WrapsClosed e)
already_closed-wrap m e = (
  (counted e, counts),
  (
    (λ h. unwrapped m e (closed-Wraps (wrap m e) h (no_wrapped_pipe m e))),
    (λ w. wraps_closed (wrap m e) (rewrapped m e w)),
  ),
)
  where
    counted : (f : Err) → already_closed f ≡ true → WrapsClosed f ⊎ BrokenPipe f
    counted f h = elim (Bool-cases (is_broken_pipe f)) [
      | inl b ↦ inr (is-BrokenPipe f b)
      | inr b ↦ inl (closed-Wraps f h b)
    ]

    counts : WrapsClosed e ⊎ BrokenPipe e → already_closed e ≡ true
    counts (inl w) = wraps_closed e w
    counts (inr b) = pipe_closed e b
