-- ===== src/Services/Codes.antt =====
-- src/daemon/services/credential_service.cpp: the cache of codes, and the codes that worker threads
-- generate for it.
pub mod Fresh
use yubikey_oath_krunner.Prelude.{
  ℕ, Bool, true, false, List, [], ◌∷◌, ◌++◌, Option, none, some, ◌+◌, ◌-◌, ◌/◌, ◌%◌, ◌==◌, ◌||◌,
  ◌&&◌, ltb, leb, not, is_empty, list_eq, if◌then◌else◌,
}
use yubikey_oath_krunner.Prelude.Text.{codes, starts_with}
use yubikey_oath_krunner.Prelude.Maps.{lookup, insert, erase}
use yubikey_oath_krunner.Credential.{OathCredential}
use yubikey_oath_krunner.Session.{Error, Result, success, error, device_gone, credential_not_found}
use yubikey_oath_krunner.Manager.{Manager, get_device, contains_text}

pub record CachedCode : Type 0 where
  pub code : List ℕ
  pub valid_until : ℕ
  pub period : ℕ

-- codeGenerated: the code and the end of its validity, or an error.
pub data CodeSignal : Type 0 where
  code_generated : List ℕ → List ℕ → List ℕ → ℕ → CodeSignal
  code_failed : List ℕ → List ℕ → Error → CodeSignal
  invalid_parameters : CodeSignal

-- `workers` are the threads that are generating a code, by device and name. Signals are kept with the
-- last one first.
pub record CodeService : Type 0 where
  pub code_cache : List (List ℕ × CachedCode)
  pub pending_generations : List (List ℕ)
  pub workers : List (List ℕ × List ℕ)
  pub code_signals : List CodeSignal

abbrev pub told : CodeSignal → CodeService → CodeService
told g s = record s { code_signals = g ∷ s.code_signals }

unfoldable pub cache_key : List ℕ → List ℕ → List ℕ
cache_key device_id credential_name = device_id ++ (codes "/" ++ credential_name)

unfoldable pub seed_from :
    ℕ → List ℕ → List OathCredential → List (List ℕ × CachedCode) → List (List ℕ × CachedCode)
unfolding cache_key
seed_from now device_id [] cache = cache
seed_from now device_id (cred ∷ creds) cache =
    let rest = seed_from now device_id creds in
    if not cred.is_totp || (cred.requires_touch || (is_empty cred.code || cred.valid_until == 0))
    then rest cache
    else if leb cred.valid_until now
    then rest cache
    else rest (
        insert (cache_key device_id cred.original_name)
          (record { code = cred.code; valid_until = cred.valid_until; period = cred.period }) cache)

unfoldable pub seed_cache_from_credentials : ℕ → List ℕ → Manager → CodeService → CodeService
unfolding seed_from
seed_cache_from_credentials now device_id m s = elim (get_device device_id m) [
  | none ↦ s
  | some d ↦ record s { code_cache = seed_from now device_id d.credentials s.code_cache }
]

unfoldable pub without_prefix : {V : Type 0} → List ℕ → List (List ℕ × V) → List (List ℕ × V)
unfolding starts_with
without_prefix prefix [] = []
without_prefix prefix ((k, v) ∷ es) =
    if starts_with k prefix then without_prefix prefix es else (k, v) ∷ without_prefix prefix es

unfoldable pub keys_without_prefix : List ℕ → List (List ℕ) → List (List ℕ)
unfolding starts_with
keys_without_prefix prefix [] = []
keys_without_prefix prefix (k ∷ ks) =
    if starts_with k prefix
    then keys_without_prefix prefix ks
    else k ∷ keys_without_prefix prefix ks

-- When a device disconnects. Its workers run on.
unfoldable pub clear_cache_for_device : List ℕ → CodeService → CodeService
unfolding without_prefix keys_without_prefix
clear_cache_for_device device_id s = record s {
  code_cache = without_prefix (device_id ++ codes "/") s.code_cache;
  pending_generations = keys_without_prefix (device_id ++ codes "/") s.pending_generations;
}

-- Whether more than half of its period is left to a code. A difference below zero is not above.
abbrev pub is_fresh : ℕ → CachedCode → Bool
is_fresh now c = ltb (c.period / 2) (c.valid_until - now)

-- The rest of `generateCodeAsync` where no code is in the cache.
unfoldable pub start_generation : List ℕ → List ℕ → Manager → CodeService → CodeService
unfolding cache_key
start_generation device_id name m s =
    if contains_text (cache_key device_id name) s.pending_generations
    then s
    else (elim (get_device device_id m) [
      | none ↦ told (code_failed device_id name device_gone) s
      | some d ↦ record s {
        pending_generations = cache_key device_id name ∷ s.pending_generations;
        workers = (device_id, name) ∷ s.workers;
      }
    ])

unfoldable pub generate_code_async : ℕ → List ℕ → List ℕ → Manager → CodeService → CodeService
unfolding start_generation cache_key
generate_code_async now device_id name m s =
    let key = cache_key device_id name in
    if is_empty device_id || is_empty name
    then told invalid_parameters s
    else (elim (lookup key s.code_cache) [
      | none ↦ start_generation device_id name m s
      | some c ↦
          if is_fresh now c
          then told (code_generated device_id name c.code c.valid_until) s
          else start_generation device_id name m (record s { code_cache = erase key s.code_cache })
    ])

-- The period of the first credential with the name, or 30 seconds.
unfoldable pub period_in : List ℕ → List OathCredential → ℕ
unfolding list_eq
period_in name [] = 30
period_in name (cred ∷ creds) =
    if list_eq cred.original_name name then cred.period else period_in name creds

-- The end of the period the time lies in; none where the remainder by a period of 0, which HOTP
-- credentials have, ends the process.
unfoldable pub valid_until_of : ℕ → ℕ → Option ℕ
valid_until_of now period = if period == 0 then none else some (now + (period - now % period))

abbrev pub remove_text : List ℕ → List (List ℕ) → List (List ℕ)
remove_text t [] = []
remove_text t (u ∷ us) = if list_eq u t then remove_text t us else u ∷ remove_text t us

-- The workers without one that generated the code.
unfoldable pub without_worker : List ℕ → List ℕ → List (List ℕ × List ℕ) → List (List ℕ × List ℕ)
unfolding list_eq
without_worker device_id name [] = []
without_worker device_id name ((d, n) ∷ ws) =
    let rest = without_worker device_id name ws in
    if list_eq d device_id && list_eq n name then ws else (d, n) ∷ rest

-- The worker has ended, and its code is not pending any more.
unfoldable pub worker_done : List ℕ → List ℕ → CodeService → CodeService
unfolding cache_key without_worker
worker_done device_id name s = record s {
  pending_generations = remove_text (cache_key device_id name) s.pending_generations;
  workers = without_worker device_id name s.workers;
}

-- The end of a worker and what the main thread does with its result, given the period of the
-- credential and the time at which the worker was done.
unfoldable pub finish_generation :
    ℕ → ℕ → List ℕ → List ℕ → Result (List ℕ) → CodeService → Option CodeService
unfolding cache_key valid_until_of worker_done
finish_generation now period device_id name (error e) s =
    some (told (code_failed device_id name e) (worker_done device_id name s))
finish_generation now period device_id name (success code) s =
    let left = worker_done device_id name s in
    elim (valid_until_of now period) [
      | none ↦ none
      | some end ↦ some (
          told (code_generated device_id name code end) (
            if is_empty code || end == 0 then left else record left {
              code_cache =
                  insert (cache_key device_id name)
                    (record { code = code; valid_until = end; period = period }) left.code_cache;
            }))
    ]
