-- ===== src/Watchdog/Loop/Terminate.antt =====
-- watchdog.py, _terminate and _abort_server_session: how a run is killed.
use orchestrator_service.Prelude.{
  Text, codes, Bool, ◌||◌, Option, none, some, List, [], ◌∷◌, ◌++◌, reverse, ◌==◌, if◌then◌else◌,
  is_empty, ℤ, negsuc,
}

-- What the watchdog sends: a POST to the server, signals to the process group (or to the process
-- where the group is not found), and waits.
pub data Action : Type 0 where
  abort : Text → Action
  terminate_group kill_group : Bool → Action
  wait_grace wait : Action

-- How the process answers: whether its group is found, whether it ends in the grace period, and the
-- code that it leaves, if any. That a signal meets a process that has just gone changes nothing.
pub record Process : Type 0 where
  pub has_group : Bool
  pub ends_in_grace : Bool
  pub returncode : Option ℤ

-- Text without the slashes at its end, given backwards.
strip_slashes : Text → Text
strip_slashes [] = []
strip_slashes (c ∷ t) = let rest = strip_slashes t in if c == b'/' then rest else c ∷ t

unfoldable pub abort_url : Text → Text → Text
unfolding strip_slashes
abort_url server_url session =
    reverse (strip_slashes (reverse server_url))
    ++ (codes "/session/" ++ (session ++ codes "/abort"))

unfoldable pub abort_server_session : Text → Option Text → List Action
abort_server_session server_url none = []
abort_server_session server_url (some session) =
    if is_empty server_url || is_empty session
    then []
    else abort (abort_url server_url session) ∷ []

unfoldable pub escalate : Process → List Action
escalate p =
    terminate_group p.has_group
    ∷ wait_grace
    ∷ (if p.ends_in_grace then [] else kill_group p.has_group ∷ wait ∷ [])

unfoldable pub exit_code_of : Option ℤ → ℤ
exit_code_of none = negsuc 14
exit_code_of (some c) = c

unfoldable pub terminate : Text → Option Text → Process → List Action × ℤ
unfolding abort_server_session escalate exit_code_of
terminate server_url session p =
    (abort_server_session server_url session ++ escalate p, exit_code_of p.returncode)
