-- ===== src/Route/Netlink/Calls.antt =====
-- What the calls of a lookup leave open, and how a lookup can end.
use socket.Base.{
  ℕ, ◌+◌, ◌-◌, Bool, true, false, not, ◌||◌, ◌&&◌, ◌≡◌, refl, Option, none, some, List, [], ◌∷◌,
  if◌then◌else◌, arith,
}
use socket.Base.Int.{ℤ, pos, negsuc, ltz, eqz}
use socket.Base.Run.{Run, ok, fault, out_of_fuel, Yields, ◌>>=◌}
use socket.Route.Dump.{Message, Receipt, no_receipt, received, System, Found, print_route}
use socket.Route.Netlink.{
  Kernel, Call, opened, closed, allocated, freed, do_route_dump_requst, receipt_of,
}

abbrev pub without : ℤ → List ℤ → List ℤ
without fd [] = []
without fd (x ∷ xs) = if eqz x fd then xs else x ∷ without fd xs

-- The descriptors that are open after the calls.
abbrev pub open_after : List ℤ → List Call → List ℤ
open_after fds [] = fds
open_after fds (opened fd ∷ calls) = open_after (fd ∷ fds) calls
open_after fds (closed fd ∷ calls) = open_after (without fd fds) calls
open_after fds (allocated ∷ calls) = open_after fds calls
open_after fds (freed ∷ calls) = open_after fds calls

-- The number of buffers that are left after the calls.
abbrev pub buffers_after : ℕ → List Call → ℕ
buffers_after n [] = n
buffers_after n (opened fd ∷ calls) = buffers_after n calls
buffers_after n (closed fd ∷ calls) = buffers_after n calls
buffers_after n (allocated ∷ calls) = buffers_after (n + 1) calls
buffers_after n (freed ∷ calls) = buffers_after (n - 1) calls

-- There is no socket, or it is not bound, or the request is not sent.
abbrev pub refused : Kernel → Bool
refused k =
    ltz k.socket_result (pos 0)
    || ltz (k.bind k.socket_result) (pos 0)
    || ltz (do_route_dump_requst k k.socket_result) (pos 0)

-- The answer does not arrive.
abbrev pub lost : Kernel → Bool
lost k =
    let sock = k.socket_result in
    ltz (k.peek sock) (pos 0)
    || not (k.malloc (k.peek sock))
    || ltz (k.recv sock (k.peek sock)) (pos 0)

abbrev magnitude : ℤ → ℕ
magnitude (pos n) = n
magnitude (negsuc n) = n + 1

-- The answer, as the loop over the messages has it.
abbrev pub answer_of : Kernel → Receipt
answer_of k =
    if lost k
    then no_receipt
    else received (magnitude (k.recv k.socket_result (k.peek k.socket_result))) k.messages

abbrev pub stops : Run (Found × Bool) → (Found → Bool) → Bool
stops (ok (s', found)) rest = if found then true else rest s'
stops fault rest = true
stops out_of_fuel rest = true

-- Whether the walk over the messages ends before `free(buf)`: at a route that it finds, or at a fault.
abbrev pub is_kept : System → ℕ → List Message → Found → Bool
is_kept sys dest [] s = false
is_kept sys dest (m ∷ ms) s =
    let rest = λ (s' : Found). is_kept sys dest ms s' in
    not (m.interrupted || m.is_error) && stops (print_route sys dest m s) rest

-- The buffers that are left of a receipt.
abbrev pub buffers_of : System → ℕ → Found → Receipt → ℕ
buffers_of sys dest s no_receipt = 0
buffers_of sys dest s (received status ms) = if is_kept sys dest ms s then 1 else 0

-- The run gives what `lookup` makes of the answer; if it returns, the socket is closed, and the
-- buffers are left that `kept` says.
abbrev pub Handles :
    {R : Type 0} → Kernel → (Receipt → ℕ) → (Option Receipt → Run R) → Run (R × List Call) → Type 0
Handles k kept lookup run =
    ((run >>= λ (r, calls). ok r) ≡ lookup (if refused k then none else some (answer_of k)))
    × Yields
        (λ (r, calls).
          (open_after [] calls ≡ [])
          × (buffers_after 0 calls ≡ (if refused k then 0 else kept (answer_of k))))
        run

-- What a lookup returns, given its result `failure` for a request that is not sent.
abbrev outcome : {R : Type 0} → Kernel → R → (Receipt → Run R) → Run R
outcome k failure found =
    if refused k then ok failure else if lost k then fault else found (answer_of k)

-- The run has this outcome; if it returns, the socket is closed, and the buffers are left that `kept`
-- says.
abbrev pub Ends :
    {R : Type 0} → Kernel → (Receipt → ℕ) → R → (Receipt → Run R) → Run (R × List Call) → Type 0
Ends k kept failure found run =
    ((run >>= λ (r, calls). ok r) ≡ outcome k failure found)
    × Yields
        (λ (r, calls).
          (open_after [] calls ≡ [])
          × (buffers_after 0 calls ≡ (if refused k then 0 else kept (answer_of k))))
        run

pub eqz_refl : (x : ℤ) → eqz x x ≡ true
eqz_refl (pos n) = ground arith
eqz_refl (negsuc n) = ground arith

-- A run, paired with calls that leave no socket open and `n` buffers.
pub run-calls :
    {R : Type 0} (m : Run R) (calls : List Call) (n : ℕ)
    → open_after [] calls ≡ []
    → buffers_after 0 calls ≡ n
    → (((m >>= λ r. ok (r, calls)) >>= λ (r, cs). ok r) ≡ m)
      × Yields
          (λ (r, cs). (open_after [] cs ≡ []) × (buffers_after 0 cs ≡ n))
          (m >>= λ r. ok (r, calls))
run-calls (ok r) calls n closes frees = (refl, (closes, frees))
run-calls fault calls n closes frees = (refl, tt)
run-calls out_of_fuel calls n closes frees = (refl, tt)

pub no_answer : (x : ℤ) → receipt_of (x, none) ≡ no_receipt
no_answer (pos n) = refl
no_answer (negsuc n) = refl

pub received-nonneg :
    (x : ℤ) (k : Kernel)
    → ltz x (pos 0) ≡ false
    → receipt_of (x, some k.messages) ≡ received (magnitude x) k.messages
received-nonneg (pos n) k sign = refl
received-nonneg (negsuc n) k sign = absurd (ground (arith, sign))
