-- ===== src/Clientbind/Sockets.antt =====
-- The sockets that a sequence of calls opens and closes.
-- The sockets one after another, each opened and then closed.
use wireproxy_homerun.Std.{Result-cases}
use wireproxy_homerun.Clientbind.{
  ClientOnlyBind, Effect, opened_socket, closed_socket, Call, run_calls, network_of, open_bind,
  close, call_open, call_send, call_close, step_call, opened_by,
}
use wireproxy_homerun.Prelude.{
  ℕ, ◌≡◌, refl, ap, Option, none, some, List, [], ◌∷◌, ◌++◌, append-nil, Option-cases, sym, ◌∙◌,
  inl, inr, append_assoc,
}

abbrev pub in_turn : List ℕ → List Effect
in_turn [] = []
in_turn (i ∷ is) = opened_socket i ∷ closed_socket i ∷ in_turn is

abbrev pub left_open : Option ℕ → List Effect
left_open none = []
left_open (some i) = opened_socket i ∷ []

in_turn-append : (is js : List ℕ) → in_turn (is ++ js) ≡ in_turn is ++ in_turn js
in_turn-append [] js = refl
in_turn-append (i ∷ is) js = ap (λ x. opened_socket i ∷ closed_socket i ∷ x) (in_turn-append is js)

step_call-in_turn :
    (call : Call) (b : ClientOnlyBind)
    → (is : List ℕ) × (left_open b.conn ++ (step_call call b).1
        ≡ in_turn is ++ left_open (step_call call b).0.conn)
unfolding step_call open_bind close opened_by
step_call-in_turn (call_send write bufs) b = ([], append-nil (left_open b.conn))
step_call-in_turn (call_open dial) b = elim (Option-cases b.conn) [
  | inr (c, e) ↦ ([], rw (e, open_bind, e) refl)
  | inl e ↦ elim (Result-cases (dial (network_of b.peer) b.peer)) [
    | inl (c, f) ↦ ([], rw (e, open_bind, f) refl)
    | inr (x, f) ↦ ([], rw (e, open_bind, f) (ap left_open (sym e)))
  ]
]
step_call-in_turn (call_close closing) b = elim (Option-cases b.conn) [
  | inl e ↦ ([], rw (e, close, e) refl)
  | inr (c, e) ↦ (c ∷ [], rw (e, close) refl)
]

-- Over any calls, with any answers of the system, the sockets that are opened are closed one after the
-- other: none is opened while another is open, none is closed twice, and only the last may still be open,
-- exactly if the bind holds it.
pub run_calls-in_turn :
    (calls : List Call) (b : ClientOnlyBind)
    → (is : List ℕ) × (left_open b.conn ++ (run_calls calls b).1
        ≡ in_turn is ++ left_open (run_calls calls b).0.conn)
unfolding run_calls
run_calls-in_turn [] b = ([], append-nil (left_open b.conn))
run_calls-in_turn (call ∷ calls) b =
    let (is, e) = step_call-in_turn call b in
    let (js, f) = run_calls-in_turn calls (step_call call b).0 in
    (
      is ++ js,
      sym (append_assoc (left_open b.conn) (step_call call b).1 _)
          ∙ ap (λ x. x ++ (run_calls calls (step_call call b).0).1) e
          ∙ append_assoc (in_turn is) (left_open (step_call call b).0.conn) _
          ∙ ap (λ x. in_turn is ++ x) f
          ∙ sym (append_assoc (in_turn is) (in_turn js) _)
          ∙ ap (λ x. x ++ left_open (run_calls calls (step_call call b).0).0.conn)
              (sym (in_turn-append is js)),
    )
