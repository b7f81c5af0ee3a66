-- ===== src/Client/Transfer/Answered.antt =====
-- bonus/src/commands: get.c, ls.c and put.c: the responses that a transfer waits for.
use mathlib.Core.Path.{subst}
use my_ftp.Prelude.{
  ℕ, ◌≡◌, refl, sym, ap, Bool-cases, inl, inr, Option, none, some, Text, codes, starts_with,
  null_or, if◌then◌else◌, ◌∙◌, true,
}
use my_ftp.Prelude.Outcome.{Outcome, done}
use my_ftp.Stdio.{c_string}
use my_ftp.Session.{CommandStatus, success, failure, not_found, quit}
use my_ftp.Client.System.{ClientOs}
use my_ftp.Client.State.{Client, State, M, pure, ◌>>=◌}
use my_ftp.Client.Reading.{read_response, expect}
use my_ftp.Client.Transfer.{unless_failed, check_get_response}

-- The next response on the socket, in this state of the system, begins with this code.
pub record Answers {W : Type 0} (os : ClientOs W) (fd : ℕ) (code : Text) (w : W) : Type 0 where
  pub line : Text
  pub came : (os.response fd w).0 ≡ some line
  pub begins : starts_with (c_string line) code ≡ true

-- the state of the system behind a response, and behind a text that the client sends
abbrev pub heard : {W : Type 0} → ClientOs W → ℕ → W → W
heard os fd w = (os.response fd w).1

abbrev pub asked : {W : Type 0} → ClientOs W → Client → Text → W → W
asked os client text world = os.send client.sockfd text world

-- The test of a response is total, and changes nothing but the system.
pub record Tested {W : Type 0} (s : State W) (o : Outcome (CommandStatus × State W)) : Type 0 where
  pub status : CommandStatus
  pub world : W
  pub runs : o ≡ done (status, record s { world = world })

module _ {W : Type 0} (os : ClientOs W) where
  pub read_response_at :
      (fd : ℕ) (s : State W) (response : Option Text)
      → (os.response fd s.world).0 ≡ response
      → read_response os fd s
        ≡ done (
          null_or response none (λ bytes. some (c_string bytes)),
          record s { world = (os.response fd s.world).1 },
        )
  unfolding read_response
  read_response_at fd s none ended = rw ended refl
  read_response_at fd s (some line) came = rw came refl

  abbrev verdict : Text → Option Text → M W CommandStatus
  verdict code response =
      null_or response (pure failure)
        (λ r. if starts_with r code then pure success else pure failure)

  verdict-Tested :
      (code : Text) (response : Option Text) (s : State W) (world : W)
      → Tested s (verdict code response (record s { world = world }))
  verdict-Tested code none s world = record { status = failure; world = world; runs = refl }
  verdict-Tested code (some r) s world = elim (Bool-cases (starts_with r code)) [
    | inl it_has ↦ rw it_has (record { status = success; world = world; runs = refl })
    | inr other ↦ rw other (record { status = failure; world = world; runs = refl })
  ]

  pub expect-Tested : (fd : ℕ) (code : Text) (s : State W) → Tested s (expect os fd code s)
  unfolding expect
  expect-Tested fd code s =
      subst (λ o. Tested s (((λ _. o) >>= verdict code) s))
        (sym (read_response_at fd s (os.response fd s.world).0 refl))
        (verdict-Tested code _ s (os.response fd s.world).1)

  pub check_get_response-Tested : (fd : ℕ) (s : State W) → Tested s (check_get_response os fd s)
  unfolding check_get_response
  check_get_response-Tested fd s =
      let t = expect-Tested fd (codes "150") s in
      let next : CommandStatus → M W CommandStatus =
        λ answer. unless_failed answer (pure failure) (expect os fd (codes "226")) in
      subst (λ o. Tested s (((λ _. o) >>= next) s)) (sym t.runs)
        (elim t.status as (λ status. Tested s (next status (record s { world = t.world }))) [
          | failure ↦ record { status = failure; world = t.world; runs = refl }
          | success ↦ again t.world
          | not_found ↦ again t.world
          | quit ↦ again t.world
        ])
    where
      again : (world : W) → Tested s (expect os fd (codes "226") (record s { world = world }))
      again world =
          let t = expect-Tested fd (codes "226") (record s { world = world }) in
          record { status = t.status; world = t.world; runs = t.runs }

  pub expect-Answers :
      (fd : ℕ) (code : Text) (s : State W)
      → Answers os fd code s.world
      → expect os fd code s ≡ done (success, record s { world = heard os fd s.world })
  unfolding expect
  expect-Answers fd code s a =
      ap (λ o. ((λ _. o) >>= verdict code) s) (read_response_at fd s (some a.line) a.came)
      ∙ ap
          (λ b.
            (if b then pure success else pure failure) (record s { world = heard os fd s.world }))
          a.begins

  pub check_get_response-Answers :
      (fd : ℕ) (s : State W)
      → Answers os fd (codes "150") s.world
      → Answers os fd (codes "226") (heard os fd s.world)
      → check_get_response os fd s
        ≡ done (success, record s { world = heard os fd (heard os fd s.world) })
  unfolding check_get_response
  check_get_response-Answers fd s opening complete =
      ap
        (λ o.
          ((λ _. o) >>= λ answer. unless_failed answer (pure failure) (expect os fd (codes "226")))
            s)
        (expect-Answers fd (codes "150") s opening)
      ∙ expect-Answers fd (codes "226") (record s { world = heard os fd s.world }) complete

  pub check_get_response-silent :
      (fd : ℕ) (s : State W)
      → Answers os fd (codes "150") s.world
      → (os.response fd (heard os fd s.world)).0 ≡ none
      → check_get_response os fd s
        ≡ done (failure, record s { world = heard os fd (heard os fd s.world) })
  unfolding check_get_response expect
  check_get_response-silent fd s opening silent =
      ap
        (λ o.
          ((λ _. o) >>= λ answer. unless_failed answer (pure failure) (expect os fd (codes "226")))
            s)
        (expect-Answers fd (codes "150") s opening)
      ∙ ap (λ o. ((λ _. o) >>= verdict (codes "226")) (record s { world = heard os fd s.world }))
          (read_response_at fd (record s { world = heard os fd s.world }) none silent)
