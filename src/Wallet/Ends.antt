-- ===== src/Wallet/Ends.antt =====
-- How a request ends, for handlers that do not throw.
use chicken_road_b.Base.{
  ℕ, String, Option, none, some, ◌∷◌, [], ◌≡◌, refl, arith, eq_iff, Action, Thrown, Result, ok, err,
  server_error, template, inl, inr, Bool-cases, or_else,
}
use chicken_road_b.Js.{Js}
use chicken_road_b.Stores.{Stores, Outage}
use chicken_road_b.Wallet.{
  WalletCall, AgentData, Reply, response, failed, AgentResponse, WalletWorld, is_accepted, Subject,
  log_success,
}
use chicken_road_b.Wallet.Operations.{request}

module _ {Num : Type 0} (js : Js Num) (st : Stores) (down : Outage) (uuid : ℕ → String)
    (reply : WalletCall Num → Reply Num) where
  abbrev pub IsQuiet : {A : Type 0} → (A → Action (WalletWorld st Num) (Unit {0})) → Type 0
  IsQuiet {A} h = (a : A) (w : WalletWorld st Num) → (h a w).0 ≡ ok tt

  -- The world with the request noted.
  abbrev pub noted : WalletCall Num → WalletWorld st Num → WalletWorld st Num
  noted call w = record w { calls = call ∷ w.calls }

  abbrev mapped : AgentData Num → String → AgentResponse Num
  mapped d t = record {
    balance = or_else d.balance js.zero_num;
    balance_ts = d.balance_ts;
    status = t;
    user_id = d.user_id;
  }

  pub data Ends (now : ℕ) (s : Subject Num) (call : WalletCall Num)
      (on_reject : ℕ → String → Action (WalletWorld st Num) (Unit {0}))
      (on_fail : Thrown → Action (WalletWorld st Num) (Unit {0})) (w : WalletWorld st Num)
      (o : Result (AgentResponse Num) × WalletWorld st Num) : Type 0 where
    accepts :
        (code : ℕ) (m : AgentResponse Num)
        → o.0 ≡ ok m
        → m.status ≡ "0000"
        → o.1 ≡ (log_success js st down uuid now s (some code) (noted call w)).1
        → Ends now s call on_reject on_fail w o
    rejects :
        (code : ℕ) (message : String)
        → o.0 ≡ err (server_error message)
        → o.1 ≡ (on_fail (server_error message) (on_reject code message (noted call w)).1).1
        → Ends now s call on_reject on_fail w o
    breaks :
        (e : Thrown)
        → o.0 ≡ err e
        → o.1 ≡ (on_fail e (noted call w)).1
        → Ends now s call on_reject on_fail w o

  module _ (now : ℕ) (s : Subject Num) (call : WalletCall Num) (verb : String)
      (on_reject : ℕ → String → Action (WalletWorld st Num) (Unit {0}))
      (on_fail : Thrown → Action (WalletWorld st Num) (Unit {0}))
      (quiet_reject : (code : ℕ) (m : String) (w : WalletWorld st Num)
        → (on_reject code m w).0 ≡ ok tt)
      (quiet_fail : (e : Thrown) (w : WalletWorld st Num) → (on_fail e w).0 ≡ ok tt)
      (w : WalletWorld st Num) where
    pub request-Ends :
        Ends now s call on_reject on_fail w
          (request js st down uuid reply now s call verb on_reject on_fail w)
    unfolding request
    request-Ends = replied (reply call) refl
      where
        replied :
            (r : Reply Num)
            → reply call ≡ r
            → Ends now s call on_reject on_fail w
                (request js st down uuid reply now s call verb on_reject on_fail w)
        replied (failed e) eq =
            breaks e (ground (arith, quiet_fail e (noted call w)))
              (ground (arith, quiet_fail e (noted call w)))
        replied (response code d) eq = stated d.status refl
          where
            stated :
                (o : Option String)
                → d.status ≡ o
                → Ends now s call on_reject on_fail w
                    (request js st down uuid reply now s call verb on_reject on_fail w)
            stated none malformed =
                breaks (server_error "Malformed agent response")
                  (ground
                    (arith, quiet_fail (server_error "Malformed agent response") (noted call w)))
                  (ground
                    (arith, quiet_fail (server_error "Malformed agent response") (noted call w)))
            stated (some t) text = elim (Bool-cases (is_accepted t)) [
              | inl good ↦
                  accepts code (mapped d t) (ground arith) ((eq_iff t "0000").0 good) (ground arith)
              | inr bad ↦
                  let e =
                    server_error
                      (template ("Agent rejected " ∷ verb ∷ " with status: " ∷ t ∷ [])) in
                  rejects code e.message
                    (ground (
                      arith,
                      quiet_reject code e.message (noted call w),
                      quiet_fail e (on_reject code e.message (noted call w)).1,
                    ))
                    (ground (
                      arith,
                      quiet_reject code e.message (noted call w),
                      quiet_fail e (on_reject code e.message (noted call w)).1,
                    ))
            ]
