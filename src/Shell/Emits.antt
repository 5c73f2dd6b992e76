-- ===== src/Shell/Emits.antt =====
-- What code over the programs of src/ard_ossie/adapters may run, and what it returns: one rule for
-- each way to build an action.
use ard_ossie_provider.Prelude.{
  ◌≡◌, refl, subst, ok_injective, Bool, true, false, List, ◌∷◌, Result, ok, err, if◌then◌else◌,
}
use ard_ossie_provider.Shell.{
  Shell, Machine, Raised, Command, ◌>>=◌, give, raise, lift, now, stop_if, sh,
}

module _ {Bytes : Type 0} where
  -- the second list has commands before those of the first, and each satisfies `Q`
  pub data Extends (Q : Command Bytes → Type 0) (log : List (Command Bytes))
      : List (Command Bytes) → Type 0 where
    same : Extends Q log log
    ran :
        (c : Command Bytes) {log' : List (Command Bytes)}
        → Q c
        → Extends Q log log'
        → Extends Q log (c ∷ log')

  pub Extends-trans :
      {Q : Command Bytes → Type 0} {a b c : List (Command Bytes)}
      → Extends Q a b
      → Extends Q b c
      → Extends Q a c
  Extends-trans e same = e
  Extends-trans e (ran c q f) = ran c q (Extends-trans e f)

  -- whatever was run before, the action runs only commands that satisfy `Q`
  pub record Emits {A : Type 0} (Q : Command Bytes → Type 0) (m : Shell Bytes A) : Type 0 where
    pub at : (log : List (Command Bytes)) → Extends Q log (m log).1

  -- what the action returns, where it does, satisfies `P`
  pub record Returns {A : Type 0} (P : A → Type 0) (m : Shell Bytes A) : Type 0 where
    pub value : (log : List (Command Bytes)) (a : A) → (m log).0 ≡ ok a → P a

module _ {Bytes A : Type 0} {Q : Command Bytes → Type 0} where
  pub Emits-give : (a : A) → Emits Q (give {Bytes = Bytes} a)
  unfolding give
  Emits-give a = record { at = λ log. same }

  pub Emits-raise : (e : Raised) → Emits Q (raise {Bytes = Bytes} {A = A} e)
  unfolding raise
  Emits-raise e = record { at = λ log. same }

  pub Emits-lift : (r : Result Raised A) → Emits Q (lift {Bytes = Bytes} r)
  unfolding lift
  Emits-lift r = record { at = λ log. same }

  pub Emits-now : (f : List (Command Bytes) → Result Raised A) → Emits Q (now f)
  unfolding now
  Emits-now f = record { at = λ log. same }

  pub Emits-if :
      (b : Bool) (m n : Shell Bytes A)
      → (b ≡ true → Emits Q m)
      → (b ≡ false → Emits Q n)
      → Emits Q (if b then m else n)
  Emits-if true m n hm hn = hm refl
  Emits-if false m n hm hn = hn refl

module _ {Bytes : Type 0} {Q : Command Bytes → Type 0} where
  pub Emits-stop_if : (b : Bool) (e : Raised) → Emits Q (stop_if b e)
  unfolding stop_if give raise
  Emits-stop_if true e = record { at = λ log. same }
  Emits-stop_if false e = record { at = λ log. same }

  pub Emits-sh : (m : Machine Bytes) (c : Command Bytes) → Q c → Emits Q (sh m c)
  unfolding sh
  Emits-sh m c q = record { at = λ log. ran c q same }

module _ {Bytes A B : Type 0} {Q : Command Bytes → Type 0} where
  pub Emits-bind-lift :
      (r : Result Raised A) (f : A → Shell Bytes B)
      → ((a : A) → r ≡ ok a → Emits Q (f a))
      → Emits Q (lift r >>= f)
  unfolding ◌>>=◌
  Emits-bind-lift (ok a) f kf = kf a refl
  Emits-bind-lift (err e) f kf = Emits-raise e

  pub Emits-bind :
      (m : Shell Bytes A) (f : A → Shell Bytes B)
      → Emits Q m
      → ((a : A) → Emits Q (f a))
      → Emits Q (m >>= f)
  unfolding ◌>>=◌
  Emits-bind m f km kf = record {
    at = λ log.
        let (r, log') = m log in
        Extends-trans (km.at log) ((Emits-bind-lift r f (λ a _. kf a)).at log');
  }

  -- the rest of the block may use what the first action returns
  pub Emits-bind-of :
      (P : A → Type 0) (m : Shell Bytes A) (f : A → Shell Bytes B)
      → Returns P m
      → Emits Q m
      → ((a : A) → P a → Emits Q (f a))
      → Emits Q (m >>= f)
  unfolding ◌>>=◌
  Emits-bind-of P m f pm km kf = record {
    at = λ log.
        Extends-trans (km.at log)
          ((Emits-bind-lift (m log).0 f (λ a e. kf a (pm.value log a e))).at (m log).1);
  }

module _ {Bytes A B : Type 0} where
  pub Returns-bind-lift :
      {P : B → Type 0} (r : Result Raised A) (f : A → Shell Bytes B)
      → ((a : A) → r ≡ ok a → Returns P (f a))
      → Returns P (lift r >>= f)
  unfolding ◌>>=◌
  Returns-bind-lift (ok a) f kf = kf a refl
  Returns-bind-lift (err e) f kf = record { value = λ log b h. cc }

  pub Returns-bind :
      {P : B → Type 0} (m : Shell Bytes A) (f : A → Shell Bytes B)
      → ((a : A) → Returns P (f a))
      → Returns P (m >>= f)
  unfolding ◌>>=◌
  Returns-bind m f kf = record {
    value =
        λ log b h. let (r, log') = m log in (Returns-bind-lift r f (λ a _. kf a)).value log' b h;
  }

  pub Returns-bind-of :
      {P : B → Type 0} (R : A → Type 0) (m : Shell Bytes A) (f : A → Shell Bytes B)
      → Returns R m
      → ((a : A) → R a → Returns P (f a))
      → Returns P (m >>= f)
  unfolding ◌>>=◌
  Returns-bind-of R m f rm kf = record {
    value = λ log b h.
        (Returns-bind-lift (m log).0 f (λ a e. kf a (rm.value log a e))).value (m log).1 b h;
  }

pub Returns-weaken :
    {Bytes A : Type 0} (P R : A → Type 0) (m : Shell Bytes A)
    → ((a : A) → P a → R a)
    → Returns P m
    → Returns R m
Returns-weaken P R m f h = record { value = λ log a e. f a (h.value log a e) }

pub Returns-raise :
    {Bytes A : Type 0} {P : A → Type 0} (e : Raised) → Returns P (raise {Bytes = Bytes} e)
unfolding raise
Returns-raise e = record { value = λ log a h. cc }

pub Returns-stop_if :
    {Bytes : Type 0} {P : Unit {0} → Type 0} (b : Bool) (e : Raised)
    → (b ≡ false → P tt)
    → Returns P (stop_if {Bytes = Bytes} b e)
unfolding stop_if give raise
Returns-stop_if true e h = record { value = λ log a k. cc }
Returns-stop_if false e h = record { value = λ log a k. h refl }

pub Returns-if :
    {Bytes A : Type 0} {P : A → Type 0} (b : Bool) (m n : Shell Bytes A)
    → (b ≡ true → Returns P m)
    → (b ≡ false → Returns P n)
    → Returns P (if b then m else n)
Returns-if true m n hm hn = hm refl
Returns-if false m n hm hn = hn refl

pub Returns-now :
    {Bytes A : Type 0} {P : A → Type 0} (f : List (Command Bytes) → Result Raised A)
    → ((log : List (Command Bytes)) (a : A) → f log ≡ ok a → P a)
    → Returns P (now f)
unfolding now
Returns-now f h = record { value = h }

pub Returns-give :
    {Bytes A : Type 0} {P : A → Type 0} (a : A) → P a → Returns P (give {Bytes = Bytes} a)
unfolding give
Returns-give {A = A} {P = P} a p = record {
  value = λ log b h. subst P (ok_injective {E = Raised} a b h) p;
}

pub ruleset emits_rules =
    (Emits-give, Emits-raise, Emits-lift, Emits-now, Emits-if, Emits-stop_if, Emits-sh, Emits-bind)
