-- ===== src/Route/Netlink/Walk.antt =====
-- What the loop over the messages of a dump does with the buffer.
use socket.Base.{
  ℕ, Bool, true, false, ◌||◌, ◌≡◌, refl, Bool-cases, inl, inr, List, [], ◌∷◌, ◌++◌, if◌then◌else◌,
}
use socket.Base.Int.{ℤ}
use socket.Base.Run.{Run, ok, fault, out_of_fuel}
use socket.Route.Dump.{Message, Receipt, System, Found, print_route}
use socket.Route.Netlink.{Kernel, Call, closed, dump_calls, calls_after, response_calls}
use socket.Route.Netlink.Calls.{
  without, open_after, buffers_after, stops, is_kept, buffers_of, lost, answer_of,
}

-- The calls of a walk open and close nothing, and leave `n` of one buffer.
abbrev pub Leaves : List Call → ℕ → Type 0
Leaves calls n =
    (fd : ℤ) (fds : List ℤ)
    → (open_after fds (calls ++ closed fd ∷ []) ≡ without fd fds)
      × (buffers_after 1 (calls ++ closed fd ∷ []) ≡ n)

abbrev pub Walks : (Receipt → ℕ) → (Receipt → List Call) → Receipt → Type 0
Walks kept walk receipt = Leaves (walk receipt) (kept receipt)

calls_after-Leaves :
    (rest : Found → List Call) (keeps : Found → Bool) (found : Run (Found × Bool))
    → ((s' : Found) → Leaves (rest s') (if keeps s' then 1 else 0))
    → Leaves (calls_after found rest) (if stops found keeps then 1 else 0)
calls_after-Leaves rest keeps (ok (s', true)) h fd fds = (refl, refl)
calls_after-Leaves rest keeps (ok (s', false)) h fd fds = h s' fd fds
calls_after-Leaves rest keeps fault h fd fds = (refl, refl)
calls_after-Leaves rest keeps out_of_fuel h fd fds = (refl, refl)

dump_calls-Leaves :
    (sys : System) (dest : ℕ) (ms : List Message) (s : Found)
    → Leaves (dump_calls sys dest ms s) (if is_kept sys dest ms s then 1 else 0)
unfolding dump_calls
dump_calls-Leaves sys dest [] s fd fds = (refl, refl)
dump_calls-Leaves sys dest (m ∷ ms) s fd fds =
    let rest : (s' : Found)
        → Leaves (dump_calls sys dest ms s') (if is_kept sys dest ms s' then 1 else 0) =
      λ s'. dump_calls-Leaves sys dest ms s' in
    elim (Bool-cases (m.interrupted || m.is_error)) [
      | inl ends ↦ rw ends (refl, refl)
      | inr goes ↦ rw goes (
          calls_after-Leaves (λ s'. dump_calls sys dest ms s') (λ s'. is_kept sys dest ms s')
            (print_route sys dest m s) rest fd fds)
    ]

pub answer_of-Walks :
    (k : Kernel) (sys : System) (dest : ℕ) (s : Found)
    → lost k ≡ false
    → Walks (buffers_of sys dest s) (λ receipt. response_calls sys dest receipt s) (answer_of k)
unfolding response_calls
answer_of-Walks k sys dest s arrives = rw arrives (dump_calls-Leaves sys dest k.messages s)
