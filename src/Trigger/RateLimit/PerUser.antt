-- ===== src/Trigger/RateLimit/PerUser.antt =====
-- The store of all users is a bucket for each user.
use group_buy_market.Prelude.{
  ◌≡◌, refl, ap, ◌∙◌, Bool, true, false, if◌then◌else◌, String, str_eq, str_eq_eq, str_eq_self,
  some, List, [], ◌∷◌, Bool-cases, inl, inr, subst,
}
use group_buy_market.Trade.Entities.{Time}
use group_buy_market.Trigger.RateLimit.{Limiter, RateLimitStore, bucket, allow}

-- The requests of users at times, and the answers of the store to them.
abbrev pub Requests : Type 0
Requests = List (String × Time)

module _ {L : Type 0} (lim : Limiter L) where
  pub answers : Requests → RateLimitStore L → List (String × Bool)
  answers [] s = []
  answers ((u, now) ∷ rest) s = let (b, t) = allow lim u now s in (u, b) ∷ answers rest t

  -- One bucket alone, fed with the times of one user's requests.
  pub bucket_answers : List Time → L → List Bool
  bucket_answers [] l = []
  bucket_answers (now ∷ rest) l = let (b, k) = lim.allow_at now l in b ∷ bucket_answers rest k

abbrev pub of_user : {A : Type 0} → String → List (String × A) → List A
of_user u [] = []
of_user u ((v, a) ∷ rest) = if str_eq u v then a ∷ of_user u rest else of_user u rest

module _ {L : Type 0} (lim : Limiter L) where
  -- What a request does: the limit stays on, and only the bucket of its user moves.
  record Step (u : String) (now : Time) (s : RateLimitStore L) : Type 0 where
    pub answer : (allow lim u now s).0 ≡ (lim.allow_at now (bucket lim s.burst (s.users u))).0
    pub moved :
        (allow lim u now s).1.users u ≡ some (lim.allow_at now (bucket lim s.burst (s.users u))).1
    pub others : (v : String) → str_eq v u ≡ false → (allow lim u now s).1.users v ≡ s.users v
    pub on : (allow lim u now s).1.enabled ≡ true
    pub burst : (allow lim u now s).1.burst ≡ s.burst

  Step-of :
      (u : String) (now : Time) (s : RateLimitStore L)
      → s.enabled ≡ true
      → str_eq u "" ≡ false
      → Step u now s
  unfolding allow
  Step-of u now s on named = record {
    answer = simp (on, named) refl;
    moved = simp (on, named, str_eq_self u) refl;
    others = λ v e. simp (on, named, e) refl;
    on = simp (on, named) refl;
    burst = simp (on, named) refl;
  }

  -- The empty user is never limited.
  step_empty :
      (u : String) (now : Time) (s : RateLimitStore L)
      → str_eq u "" ≡ true
      → (allow lim u now s).1 ≡ s
  unfolding allow
  step_empty u now s empty = elim (Bool-cases s.enabled) [
    | inl on ↦ simp (on, empty) refl
    | inr off ↦ simp (off, empty) refl
  ]

  -- A request of the user, before requests for which the claim holds.
  own :
      (u : String) (now : Time) (rest : Requests) (s : RateLimitStore L)
      → Step u now s
      → let t = (allow lim u now s).1 in
        (of_user u (answers lim rest t)
          ≡ bucket_answers lim (of_user u rest) (bucket lim t.burst (t.users u)))
        → of_user u (answers lim ((u, now) ∷ rest) s)
          ≡ bucket_answers lim (of_user u ((u, now) ∷ rest)) (bucket lim s.burst (s.users u))
  unfolding answers bucket_answers
  own u now rest s st ih = rw (str_eq_self u) (
      ap (λ b. b ∷ of_user u (answers lim rest (allow lim u now s).1)) st.answer
      ∙ ap (λ l. (lim.allow_at now (bucket lim s.burst (s.users u))).0 ∷ l)
          (ih
            ∙ ap
                (λ o.
                  bucket_answers lim (of_user u rest) (bucket lim (allow lim u now s).1.burst o))
                st.moved))

  -- A request of another user, before requests for which the claim holds.
  other :
      (u v : String) (now : Time) (rest : Requests) (s : RateLimitStore L)
      → str_eq u v ≡ false
      → (allow lim v now s).1.users u ≡ s.users u
      → (allow lim v now s).1.burst ≡ s.burst
      → let t = (allow lim v now s).1 in
        (of_user u (answers lim rest t)
          ≡ bucket_answers lim (of_user u rest) (bucket lim t.burst (t.users u)))
        → of_user u (answers lim ((v, now) ∷ rest) s)
          ≡ bucket_answers lim (of_user u ((v, now) ∷ rest)) (bucket lim s.burst (s.users u))
  unfolding answers bucket_answers
  other u v now rest s e users burst ih = rw e (
      ih
      ∙ ap (λ o. bucket_answers lim (of_user u rest) (bucket lim (allow lim v now s).1.burst o))
          users
      ∙ ap (λ b. bucket_answers lim (of_user u rest) (bucket lim b (s.users u))) burst)

  -- While the limit is on, the answers that a user whose name is not empty gets among the requests of all users are those of
  -- one token bucket that sees only the user's own requests, in their order: the requests of other
  -- users neither take nor give a token.
  pub answers-bucket_answers :
      (u : String) (requests : Requests) (s : RateLimitStore L)
      → s.enabled ≡ true
      → str_eq u "" ≡ false
      → of_user u (answers lim requests s)
        ≡ bucket_answers lim (of_user u requests) (bucket lim s.burst (s.users u))
  unfolding answers bucket_answers
  answers-bucket_answers u [] s on named = refl
  answers-bucket_answers u ((v, now) ∷ rest) s on named = elim (Bool-cases (str_eq u v)) [
    | inl e ↦
        let st = Step-of u now s on named in
        subst
          (λ x.
            of_user u (answers lim ((x, now) ∷ rest) s)
            ≡ bucket_answers lim (of_user u ((x, now) ∷ rest)) (bucket lim s.burst (s.users u)))
          (str_eq_eq u v e)
          (own u now rest s st (answers-bucket_answers u rest (allow lim u now s).1 st.on named))
    | inr e ↦ elim (Bool-cases (str_eq v "")) [
      | inl empty ↦
          let same = step_empty v now s empty in
          other u v now rest s e (ap (λ t. t.users u) same) (ap (λ t. t.burst) same) (
            answers-bucket_answers u rest (allow lim v now s).1 (ap (λ t. t.enabled) same ∙ on)
              named)
      | inr full ↦
          let st = Step-of v now s on full in
          other u v now rest s e (st.others u e) st.burst
            (answers-bucket_answers u rest (allow lim v now s).1 st.on named)
    ]
  ]
