-- ===== src/Store/Db/Keeps.antt =====
-- crates/fineco-store: what actions do to the tables, whether they return or fail, and that they use up
-- no driver fault that is not there. One rule for each way to build an action. The error type is
-- that of the store, or of a caller that maps it.
use fineco_helper.Store.Db.{
  Store, StoreM, StoreError, Statement, Tables, execute, execute_next, written, query, transaction,
  finish_transaction,
}
use fineco_helper.Base.{
  [], ◌∷◌, true, false, ok, err, Result, pure, List, ◌>>=◌, Bool, continue, if◌then◌else◌, refl,
  Exec, fail, lift, ◌≡◌, ◌∙◌,
}

-- From tables with `P` the action leads to tables with `Q`.
pub record Leads {E A : Type 0} (P Q : Tables → Type 0) (m : Exec Store E A) : Type 0 where
  pub at : (s : Store) → P s.tables → Q (m s).1.tables
  pub quiet : (s : Store) → s.faults ≡ [] → (m s).1.faults ≡ []

abbrev pub Keeps : {E A : Type 0} → (Tables → Type 0) → Exec Store E A → Type 0
Keeps P m = Leads P P m

-- The tables of an answer.
unfoldable pub or_tables : {A : Type 0} → Result StoreError (A × Tables) → Tables → Tables
or_tables (ok (a, t)) u = t
or_tables (err e) u = u

module _ {E A : Type 0} {P : Tables → Type 0} where
  pub Keeps-pure : (a : A) → Keeps {E = E} P (pure a)
  Keeps-pure a = record { at = λ s h. h; quiet = λ s e. e }

  pub Keeps-fail : (e : E) → Keeps {A = A} P (fail e)
  Keeps-fail e = record { at = λ s h. h; quiet = λ s e. e }

  pub Keeps-lift : (r : Result E A) → Keeps P (lift r)
  Keeps-lift r = record { at = λ s h. h; quiet = λ s e. e }

module _ {E A : Type 0} {P Q : Tables → Type 0} where
  pub Leads-if :
      (b : Bool) (m n : Exec Store E A) → Leads P Q m → Leads P Q n → Leads P Q (if b then m else n)
  Leads-if true m n km kn = km
  Leads-if false m n km kn = kn

  -- An action that only changes the answer of another.
  pub Leads-answer :
      {F B : Type 0} (m : Exec Store E A) (f : Result E A → Result F B)
      → Leads P Q m
      → Leads {E = F} {A = B} P Q (λ s. (f (m s).0, (m s).1))
  Leads-answer m f k = record { at = λ s h. k.at s h; quiet = λ s e. k.quiet s e }

  pub Leads-weaken :
      {R : Tables → Type 0} (m : Exec Store E A)
      → ((t : Tables) → Q t → R t)
      → Leads P Q m
      → Leads P R m
  Leads-weaken m w k = record { at = λ s h. w (m s).1.tables (k.at s h); quiet = k.quiet }

module _ {A : Type 0} (P Q : Tables → Type 0) where
  written-leads :
      (r : Result StoreError (A × Tables)) (s : Store)
      → Q (or_tables r s.tables)
      → Q (written r s).1.tables
  unfolding written or_tables
  written-leads (ok (a, t)) s h = h
  written-leads (err e) s h = h

  execute_next-leads :
      (faults : List Bool) (stmt : Statement A) (s : Store)
      → Q s.tables
      → Q (or_tables (stmt s.tables) s.tables)
      → Q (execute_next faults stmt s).1.tables
  unfolding execute_next
  execute_next-leads [] stmt s h k = written-leads (stmt s.tables) s k
  execute_next-leads (true ∷ rest) stmt s h k = h
  execute_next-leads (false ∷ rest) stmt s h k =
      written-leads (stmt s.tables) (record s { faults = rest }) k

module _ {A : Type 0} where
  written-faults :
      (r : Result StoreError (A × Tables)) (s : Store) → (written r s).1.faults ≡ s.faults
  unfolding written
  written-faults (ok (a, t)) s = refl
  written-faults (err e) s = refl

  execute_next-quiet :
      (faults : List Bool) (stmt : Statement A) (s : Store)
      → faults ≡ []
      → s.faults ≡ []
      → (execute_next faults stmt s).1.faults ≡ []
  unfolding execute_next
  execute_next-quiet [] stmt s e f = written-faults (stmt s.tables) s ∙ f
  execute_next-quiet (b ∷ rest) stmt s e f = absurd cc

  execute-quiet : (stmt : Statement A) (s : Store) → s.faults ≡ [] → (execute stmt s).1.faults ≡ []
  unfolding execute
  execute-quiet stmt s e = execute_next-quiet s.faults stmt s e e

module _ {A : Type 0} {P Q : Tables → Type 0} where
  -- A statement that leads from `P` to `Q` when it is executed; one that is not changes nothing.
  pub Leads-execute :
      (stmt : Statement A)
      → ((t : Tables) → P t → Q t)
      → ((t : Tables) → P t → Q (or_tables (stmt t) t))
      → Leads P Q (execute stmt)
  unfolding execute
  Leads-execute stmt w k = record {
    at = λ s h. execute_next-leads P Q s.faults stmt s (w s.tables h) (k s.tables h);
    quiet = λ s e. execute-quiet stmt s e;
  }

module _ {A : Type 0} {P : Tables → Type 0} where
  pub Keeps-execute :
      (stmt : Statement A)
      → ((t : Tables) → P t → P (or_tables (stmt t) t))
      → Keeps P (execute stmt)
  Keeps-execute stmt k = Leads-execute stmt (λ t h. h) k

  pub Keeps-query : (f : Tables → A) → Keeps P (query f)
  unfolding query or_tables
  Keeps-query f = Keeps-execute (λ t. ok (f t, t)) (λ t h. h)

module _ {E A B : Type 0} {Q : Tables → Type 0} where
  continue-keeps :
      (r : Result E A) (f : A → Exec Store E B) (s : Store)
      → Q s.tables
      → ((a : A) → Keeps Q (f a))
      → Q (continue r f s).1.tables
  continue-keeps (ok a) f s h k = (k a).at s h
  continue-keeps (err e) f s h k = h

  continue-quiet :
      (r : Result E A) (f : A → Exec Store E B) (s : Store)
      → s.faults ≡ []
      → ((a : A) → Keeps Q (f a))
      → (continue r f s).1.faults ≡ []
  continue-quiet (ok a) f s e k = (k a).quiet s e
  continue-quiet (err x) f s e k = e

  pub Keeps-bind :
      {P : Tables → Type 0} (m : Exec Store E A) (f : A → Exec Store E B)
      → Leads P Q m
      → ((a : A) → Keeps Q (f a))
      → Leads P Q (m >>= f)
  Keeps-bind m f km kf = record {
    at = λ s h. let (r, s') = m s in continue-keeps r f s' (km.at s h) kf;
    quiet = λ s e. let (r, s') = m s in continue-quiet r f s' (km.quiet s e) kf;
  }

module _ {E A B : Type 0} {P Q : Tables → Type 0} where
  continue-leads :
      (r : Result E A) (f : A → Exec Store E B) (s : Store)
      → ((t : Tables) → P t → Q t)
      → P s.tables
      → ((a : A) → Leads P Q (f a))
      → Q (continue r f s).1.tables
  continue-leads (ok a) f s w h k = (k a).at s h
  continue-leads (err e) f s w h k = w s.tables h

  continue-Leads-quiet :
      (r : Result E A) (f : A → Exec Store E B) (s : Store)
      → s.faults ≡ []
      → ((a : A) → Leads P Q (f a))
      → (continue r f s).1.faults ≡ []
  continue-Leads-quiet (ok a) f s e k = (k a).quiet s e
  continue-Leads-quiet (err x) f s e k = e

  -- An action that leads to `Q` after one that keeps `P`.
  pub Leads-bind :
      (m : Exec Store E A) (f : A → Exec Store E B)
      → ((t : Tables) → P t → Q t)
      → Keeps P m
      → ((a : A) → Leads P Q (f a))
      → Leads P Q (m >>= f)
  Leads-bind m f w km kf = record {
    at = λ s h. let (r, s') = m s in continue-leads r f s' w (km.at s h) kf;
    quiet = λ s e. let (r, s') = m s in continue-Leads-quiet r f s' (km.quiet s e) kf;
  }

module _ {A : Type 0} (P : Tables → Type 0) where
  finish_transaction-keeps :
      (before : Tables) (r : Result StoreError A) (s : Store)
      → P before
      → P s.tables
      → P (finish_transaction before (r, s)).1.tables
  unfolding finish_transaction
  finish_transaction-keeps before (ok a) s b h = h
  finish_transaction-keeps before (err e) s b h = b

module _ {A : Type 0} where
  finish_transaction-quiet :
      (before : Tables) (r : Result StoreError A) (s : Store)
      → s.faults ≡ []
      → (finish_transaction before (r, s)).1.faults ≡ []
  unfolding finish_transaction
  finish_transaction-quiet before (ok a) s h = h
  finish_transaction-quiet before (err e) s h = h

abbrev committed : {A : Type 0} → StoreM A → StoreM A
committed body = body >>= λ a. execute (λ t. ok (a, t))

module _ {A : Type 0} {P : Tables → Type 0} where
  committed-Keeps : (body : StoreM A) → Keeps P body → Keeps P (committed body)
  unfolding query
  committed-Keeps body k = Keeps-bind body _ k (λ a. Keeps-query (λ t. a))

  pub Keeps-transaction : (body : StoreM A) → Keeps P body → Keeps P (transaction body)
  unfolding transaction
  Keeps-transaction body k = record {
    at = λ s h.
        finish_transaction-keeps P s.tables (committed body s).0 (committed body s).1 h
          ((committed-Keeps body k).at s h);
    quiet = λ s e.
        finish_transaction-quiet s.tables (committed body s).0 (committed body s).1
          ((committed-Keeps body k).quiet s e);
  }
