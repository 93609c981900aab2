-- ===== src/Domain/Errors.antt =====
-- internal/domain/errors.go, and the errors that other code wraps round them.
use event_driven_arch.Common.{ℕ, String, Bool, false, ◌==◌, Outcome, ok, err, Failure}

-- The package variables `Err...`.
pub data Sentinel : Type 0 where
  not_found conflict invalid_channel invalid_priority invalid_recipient : Sentinel
  invalid_content batch_too_large batch_empty already_cancelled not_cancellable : Sentinel
  queue_full : Sentinel

-- The text that `errors.New` was given.
unfoldable pub sentinel_text : Sentinel → String
sentinel_text not_found = "not found"
sentinel_text conflict = "conflict: idempotency key already exists"
sentinel_text invalid_channel = "invalid channel: must be sms, email, or push"
sentinel_text invalid_priority = "invalid priority: must be high, normal, or low"
sentinel_text invalid_recipient = "recipient must not be empty"
sentinel_text invalid_content = "content must be between 1 and 4096 characters"
sentinel_text batch_too_large = "batch exceeds maximum of 1000 notifications"
sentinel_text batch_empty = "batch must contain at least one notification"
sentinel_text already_cancelled = "notification is already cancelled"
sentinel_text not_cancellable = "notification cannot be cancelled in its current status"
sentinel_text queue_full = "queue is at capacity, try again later"

-- An `error` value: one of the variables, `fmt.Errorf("...: %w", err)` with the text before the
-- colon, `fmt.Errorf("item %d: %w", i, err)`, `fmt.Errorf("unknown priority %q", p)`, or an error
-- of code outside the repository or of the text of a status, as the provider makes one.
pub data Error : Type 0 where
  sentinel : Sentinel → Error
  wrapped : String → Error → Error
  item_error : ℕ → Error → Error
  unknown_priority : String → Error
  foreign : String → Error

-- A number for each variable, by which two of them are compared.
abbrev number : Sentinel → ℕ
number not_found = 0
number conflict = 1
number invalid_channel = 2
number invalid_priority = 3
number invalid_recipient = 4
number invalid_content = 5
number batch_too_large = 6
number batch_empty = 7
number already_cancelled = 8
number not_cancellable = 9
number queue_full = 10

-- `errors.Is(err, target)`: the error itself or one that it wraps is the variable.
abbrev pub errors_is : Error → Sentinel → Bool
errors_is (sentinel s) target = number s == number target
errors_is (wrapped _ e) target = errors_is e target
errors_is (item_error _ e) target = errors_is e target
errors_is (unknown_priority _) target = false
errors_is (foreign _) target = false

abbrev pub Result : Type 0 → Type 0
Result A = Outcome Error A

abbrev pub Err : Type 0
Err = Failure Error

-- A call on a state `S`, such as a database: it may have changed the state before it failed.
abbrev pub Action : Type 0 → Type 0 → Type 0
Action S A = S → Result A × S

-- `fmt.Errorf("text: %w", err)` round the error of a call.
abbrev pub wrap : {A : Type 0} → String → Result A → Result A
wrap text (ok a) = ok a
wrap text (err e) = err (wrapped text e)

module _ {S : Type 0} where
  module _ {A : Type 0} where
    abbrev pub pure : A → Action S A
    pure a s = (ok a, s)

    abbrev pub raise : Error → Action S A
    raise e s = (err e, s)

    abbrev pub context : String → Action S A → Action S A
    context text m s = let (r, s') = m s in (wrap text r, s')

    abbrev pub lift : Result A → Action S A
    lift r s = (r, s)

-- `if err != nil { return ..., err }` after each call.
infixl 5 ◌>>=◌ ◌>>◌
abbrev pub ◌>>=◌ : {S A B : Type 0} → Action S A → (A → Action S B) → Action S B
◌>>=◌ m f s = let (r, s') = m s in elim r [ ok a ↦ f a s' | err e ↦ (err e, s') ]

abbrev pub ◌>>◌ : {S A B : Type 0} → Action S A → Action S B → Action S B
m >> k = m >>= λ _. k

-- To reason of a call and what follows it: what the call leaves behind, and then both ways on.
module _ {S A B : Type 0} (P : Result A × S → Type 0) (Q : Result B × S → Type 0) where
  next-post :
      (f : A → Action S B) (r : Result A) (s : S)
      → P (r, s)
      → ((a : A) (s : S) → P (ok a, s) → Q (f a s))
      → ((e : Error) (s : S) → P (err e, s) → Q (err e, s))
      → Q (elim r [ ok a ↦ f a s | err e ↦ (err e, s) ])
  next-post f (ok a) s p good bad = good a s p
  next-post f (err e) s p good bad = bad e s p

  pub bind-post :
      (m : Action S A) (f : A → Action S B) (s : S)
      → P (m s)
      → ((a : A) (s : S) → P (ok a, s) → Q (f a s))
      → ((e : Error) (s : S) → P (err e, s) → Q (err e, s))
      → Q ((m >>= f) s)
  bind-post m f s p good bad = next-post f (m s).0 (m s).1 p good bad
