-- ===== src/Lib.antt =====
-- The OAuth2 and OpenID Connect identity provider of idp-server: its authorization server, and the
-- access control that it rests on.
--
-- The parts and how they interact. A browser comes to the authorize endpoint, which finds the client
-- and the session, asks for a login or a consent, or hands out an authorization code. The client
-- then goes to the token endpoint, which exchanges that code, a refresh token, a password, its own
-- credentials or a device code for tokens. Both call repositories, caches, a signer and a clock
-- through the interfaces of internal/ports, and both read the entities of internal/domain. The
-- status of a cached session is kept as a bit mask too, which the services read. Beside these two
-- stand the pages of a signed-in user (consent, the decision about a device, TOTP, logout) and the
-- requests of an operator (roles, clients, accounts, short links).
--
-- Base       numbers, lists, texts and bits as the program uses them, and actions (Base.Exec): an
--            action reads and writes the world outside a service and gives a value, one of the
--            service's errors, or an error of a port; what was written before an error stays.
--            Base.Exec.Success has what a block of actions did if it succeeded, Base.Exec.Ends with
--            what state it ends whatever it gives, Base.Exec.Runs a list of calls in a row.
-- Domain     the entities of idp-server/internal/domain
-- Ports      the interfaces of idp-server/internal/ports, each a record of actions
-- StateMask  idp-server/internal/ports/cache/state_mask.go
-- Rbac       idp-server/pkg/rbac/rbac.go
-- Scopes     normalizeScopes, allContained and contains, which both services declare alike
-- Authz      idp-server/internal/application/authz: Authorize is authorize, findActiveSession is
--            find_active_session
-- Token      idp-server/internal/application/token: Exchange is Token.Exchange.exchange; Token.Code,
--            Token.Refresh and Token.Grants have the grants, Token what they share. The code that
--            mints, stores and caches an access token stands three times in the source and is
--            mint_access here.
-- ClientAuth idp-server/internal/application/clientauth and idp-server/internal/plugins/client_auth:
--            Authenticate of the service is authenticate, those of the plugins authenticate_basic,
--            authenticate_post and authenticate_none
-- Persistence  the repositories of idp-server/internal/infrastructure/persistence for authorization
--            codes (Codes: Create, ConsumeByCode) and refresh tokens (Refreshes: CreateRefreshToken,
--            FindActiveRefreshTokenBySHA256, RotateRefreshToken, RevokeRefreshTokensByUserID), with
--            the statements of its sql directory read as operations on lists of rows
--            Roles is the repository of operator roles, whole.
-- Device     idp-server/internal/application/device: Start, Prepare and Decide are start, prepare
--            and decide
-- Consent    idp-server/internal/application/consent: Prepare and Decide
-- Mfa        idp-server/internal/application/mfa: BeginSetup, ConfirmSetup, BeginLoginChallenge
-- Logout     idp-server/internal/application/session: Logout, LogoutAll, AdminLogoutUser
-- Roles      idp-server/internal/application/rbac; Roles.Tables sets the service on its repository,
--            and Roles.Protected has the requests of operators as steps on the table
-- Registration  idp-server/internal/application/client: the checks of each field, and the requests
--            in Registration.Requests
-- Account    idp-server/internal/application/register: Register, AdminResetPassword,
--            AdminUnlockUser
-- ShortUrl   idp-server/internal/application/shorturl: Create and Resolve
-- Tests      runs at concrete inputs
--
-- What is asked of other code. The ports, JSON, base 10 numbers, digests, the signer, random bytes,
-- UUIDs, net/url and net/mail are parameters, and a statement about a service holds for whatever
-- they do, but for three that name what they need: rand.Read fills its buffer (the start of a
-- device), rand.Int stays below its bound (a short link), and the collation of role codes is
-- symmetric and Euclidean (system roles). An action that reads the clock may give
-- any instant. What stands behind a port may change the world in any way during a call, so requests
-- that run at the same time are within the statements as far as they meet in ports. For the
-- repositories the tables are in the model: the collation that compares codes and digests and the
-- errors that the driver reports are parameters, and transactions that lock the same row run one
-- after the other.
--
-- What is simplified. An instant is its number of nanoseconds and does not overflow; int64 and int
-- are integers, so products such as a TTL in nanoseconds do not wrap; the difference of two
-- instants stops at the bounds of a Duration, as in Go. Upper and lower case and trimming are those of ASCII, with the four other characters that strings.ToLower and
-- strings.ToUpper send to or from ASCII letters and the Unicode spaces. The number of seconds that
-- a token is good for is computed exactly, not in float64. Logging, contexts and nil receivers are
-- left out. Start of the device service and BeginSetup of the MFA service need a repository of
-- device codes and a TOTP provider, and take them as arguments. The steps of Roles.Protected leave
-- out BootstrapBuiltinRoles, which runs at start-up and writes the built-in roles. A nil slice is the
-- empty list, also where it is written as JSON. Rows keep instants exactly, where DATETIME has whole
-- seconds, and a foreign key fails as an error of the driver. All recursion is on lists and texts, and on the number of attempts that
-- are left where a short link is made, so no fuel is used.
--
-- What is not modelled: the login, passkey, OIDC and key services, the other repositories,
-- the Redis adapters and their scripts, HTTP handlers and start-up.
pub mod Account
pub mod Authz
pub mod Base
pub mod ClientAuth
pub mod Consent
pub mod Device
pub mod Domain
pub mod Logout
pub mod Mfa
pub mod Persistence
pub mod Ports
pub mod Rbac
pub mod Registration
pub mod Roles
pub mod Scopes
pub mod ShortUrl
pub mod StateMask
pub mod Tests
pub mod Token
