-- ===== src/User/Calls/Balance.antt =====
-- user/: what is obtained and what is given back, counted on the calls by a weight of the handles. That
-- two lists of handles have one weight for every such function means that they are the same but for
-- their order.
use vpipe.Base.{ℕ, ◌+◌, Option, none, some, [], ◌∷◌}
use vpipe.User.Calls.{Handle, Trace, asked, obtained, returned}

module _ (weight : Handle → ℕ) where
  abbrev pub taken : Trace → ℕ
  taken [] = 0
  taken (asked call ∷ trace) = taken trace
  taken (obtained handle ∷ trace) = weight handle + taken trace
  taken (returned handle ∷ trace) = taken trace

  abbrev pub given_back : Trace → ℕ
  given_back [] = 0
  given_back (asked call ∷ trace) = given_back trace
  given_back (obtained handle ∷ trace) = given_back trace
  given_back (returned handle ∷ trace) = weight handle + given_back trace

  -- The weight of a handle that a variable holds.
  abbrev pub held : (ℕ → Handle) → Option ℕ → ℕ
  held handle none = 0
  held handle (some n) = weight (handle n)
