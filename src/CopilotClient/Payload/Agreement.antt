-- ===== src/CopilotClient/Payload/Agreement.antt =====
-- Creating and resuming a session send the same configuration.
use copilot_sdk.Prelude.{
  String, ◌≡◌, refl, sym, ◌∙◌, inl, inr, Bool, true, false, Option, none, List, [], ◌∷◌, arith,
  lookup, str_eq, eq_iff, All, Bool-cases, if◌then◌else◌,
}
use mathlib.Core.Path.{subst}
use copilot_sdk.Value.{Value}
use copilot_sdk.CopilotClient.Payload.{
  Config, create_entries, resume_entries, create_payload, resume_payload,
}
use copilot_sdk.CopilotClient.Payload.Entries.{last_given, lookup-put_all}

-- The keys that both payloads may have, but for the session's id.
abbrev shared : List String
shared =
    "model" ∷ "clientName" ∷ "reasoningEffort" ∷ "tools" ∷ "systemMessage" ∷ "availableTools"
    ∷ "excludedTools" ∷ "requestPermission" ∷ "requestUserInput" ∷ "hooks" ∷ "workingDirectory"
    ∷ "streaming" ∷ "provider" ∷ "mcpServers" ∷ "envValueMode" ∷ "customAgents" ∷ "configDir"
    ∷ "skillDirectories" ∷ "disabledSkills" ∷ "infiniteSessions" ∷ []

unfoldable member : String → List String → Bool
member k [] = false
member k (j ∷ js) = if str_eq j k then true else member k js

-- The key is none of the list.
abbrev Lacks : String → List String → Type 0
Lacks k = All (λ j. str_eq j k ≡ false)

Lacks-member : (k : String) (js : List String) → member k js ≡ false → Lacks k js
unfolding member
Lacks-member k [] h = tt
Lacks-member k (j ∷ js) h = (ground (arith, h), Lacks-member k js (ground (arith, h)))

All-member {κ} :
    (P : String → Type κ) (k : String) (js : List String) → member k js ≡ true → All P js → P k
unfolding member
All-member P k [] h a = cc
All-member P k (j ∷ js) h (p, a) = elim (Bool-cases (str_eq j k)) [
  | inl e ↦ subst P ((eq_iff j k).0 e) p
  | inr e ↦ All-member P k js (ground (arith, h, e)) a
]

abbrev keys : List (String × Option Value) → List String
keys [] = []
keys ((k, _) ∷ es) = k ∷ keys es

last_given-Lacks :
    (k : String) (es : List (String × Option Value)) → Lacks k (keys es) → last_given k es ≡ none
unfolding last_given
last_given-Lacks k [] h = refl
last_given-Lacks k ((j, o) ∷ es) (hj, h) = rw hj (last_given-Lacks k es h)

module _ (session_id : String) (cfg : Config) where
  abbrev Agrees : String → Type 0
  Agrees k = last_given k (create_entries cfg) ≡ last_given k (resume_entries session_id cfg)

  Agrees-shared : All Agrees shared
  unfolding last_given create_entries resume_entries
  Agrees-shared = (
    refl,
    (
      refl,
      (
        refl,
        (
          refl,
          (
            refl,
            (
              refl,
              (
                refl,
                (
                  refl,
                  (
                    refl,
                    (
                      refl,
                      (
                        refl,
                        (refl, (refl, (refl, (refl, (refl, (refl, (refl, (refl, (refl, tt))))))))),
                      ),
                    ),
                  ),
                ),
              ),
            ),
          ),
        ),
      ),
    ),
  )

  create-Lacks :
      (k : String)
      → str_eq "sessionId" k ≡ false
      → Lacks k shared
      → Lacks k (keys (create_entries cfg))
  unfolding create_entries
  create-Lacks k e h = ground (arith, h)

  resume-Lacks :
      (k : String)
      → str_eq "sessionId" k ≡ false
      → str_eq "disableResume" k ≡ false
      → Lacks k shared
      → Lacks k (keys (resume_entries session_id cfg))
  unfolding resume_entries
  resume-Lacks k e d h = ground (arith, h)

  Agrees-all :
      (k : String) → str_eq "sessionId" k ≡ false → str_eq "disableResume" k ≡ false → Agrees k
  Agrees-all k e d = elim (Bool-cases (member k shared)) [
    | inl found ↦ All-member Agrees k shared found Agrees-shared
    | inr absent ↦
        let h = Lacks-member k shared absent in
        last_given-Lacks k (create_entries cfg) (create-Lacks k e h)
        ∙ sym (last_given-Lacks k (resume_entries session_id cfg) (resume-Lacks k e d h))
  ]

  -- For one configuration, `create_session` and `resume_session` send the same value, or none, under
  -- every key but "sessionId" and "disableResume".
  pub create_payload-resume_payload :
      (k : String)
      → str_eq "sessionId" k ≡ false
      → str_eq "disableResume" k ≡ false
      → lookup k (create_payload cfg) ≡ lookup k (resume_payload session_id cfg)
  unfolding create_payload resume_payload
  create_payload-resume_payload k e d =
      lookup-put_all k (create_entries cfg)
      ∙ Agrees-all k e d
      ∙ sym (lookup-put_all k (resume_entries session_id cfg))
