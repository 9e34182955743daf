-- ===== src/Server/Addresses.antt =====
-- lib/Server.py: the socket on which the server waits, and the options of a connection.
use tsi.Base.{ℕ, List, [], ◌∷◌, ◌++◌, Bool, true, false, ◌==◌, text_eq, nat_eq, ◌||◌, if◌then◌else◌}
use tsi.Base.Int.{ℤ, is_positive}
use tsi.Base.Text.{Text, txt, starts_with}

-- The families of the addresses that a name resolves to.
pub data Family : Type 0 where
  inet inet6 : Family

unfoldable pub some_inet6 : List Family → Bool
some_inet6 [] = false
some_inet6 (inet ∷ more) = some_inet6 more
some_inet6 (inet6 ∷ more) = true

-- `_check_ipv6_support`
unfoldable pub check_ipv6_support : Bool → (Text → List Family) → Text → Bool
unfolding some_inet6
check_ipv6_support disabled resolve host =
    if disabled
    then false
    else if host == [] || host == txt "*"
    then true
    else some_inet6 (resolve host)

-- The arguments of the library's `create_server`.
pub data Listening : Type 0 where
  dual_stack : Text → ℤ → Listening
  plain : Text → ℤ → Listening

unfoldable pub create_server : Bool → (Text → List Family) → Text → ℤ → Listening
unfolding check_ipv6_support
create_server disabled resolve host port =
    if check_ipv6_support disabled resolve host then dual_stack host port else plain host port

-- The options of a connection, as they are set.
pub data SocketOption : Type 0 where
  no_timeout keepalive : SocketOption
  idle_seconds interval_seconds failures darwin_interval : ℕ → SocketOption

unfoldable pub configure_socket : Text → List SocketOption
configure_socket platform =
    (no_timeout ∷ [])
    ++ ((if starts_with platform (txt "win") then [] else keepalive ∷ [])
        ++ ((if starts_with platform (txt "darwin") then darwin_interval 1 ∷ [] else [])
            ++ (if starts_with platform (txt "linux")
                then idle_seconds 5 ∷ interval_seconds 1 ∷ failures 3 ∷ []
                else [])))

-- The children that the handler of SIGCHLD takes, from those that `wait3` gives, until it gives 0.
unfoldable pub worker_completed : List ℤ → List ℤ
worker_completed [] = []
worker_completed (pid ∷ pids) =
    let taken = worker_completed pids in if is_positive pid then pid ∷ taken else []
