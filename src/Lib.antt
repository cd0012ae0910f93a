-- ===== src/Lib.antt =====
-- THE EYE: the two web portals of the audit platform.
--
-- The dashboard (frontend/src) and the staff portal (staff-portal/src) are clients of one HTTP API.
-- Each keeps a marker of its session in `localStorage`, sends its calls through a function `request`
-- that reacts to 401, and has pages whose handlers make calls and change the page by their outcome.
-- The backend (Python), the agent, the markup and the styles are not modelled.
--
-- Base       names, tests on numbers and texts, lists, dictionaries that all modules share;
--            Base.Keyed is for lists of values with ids
-- Json       JSON values; Json.Codec is the interface of `JSON.stringify` and `JSON.parse`, with what
--            the clients rely on, and Json.Sample an instance of it for the examples
-- Browser    what the code sees of the browser: storage, navigations, requests sent, the dark class
-- Session    frontend/src/lib/auth.ts; Session.Guard is useRequireAuth.ts
-- Http       what `request` of both clients shares: options, the request built, errors and values
-- Client     `request` of frontend/src/lib/api-client.ts and what it does to the session
-- Query      how both clients fill a `URLSearchParams`; Query.Decimal is `String(n)`,
--            and Query.Decimal.Cents that of a price
-- Text       lengths in UTF-16 code units, and `trim`; Text.Words is how identifiers are worded
--            (fmtLabel, fmtRole, fmtEvType), Text.Actions actionLabel of the staff portal, Text.Lines
--            texts of several lines, Text.Paths the active link of a sidebar
-- Doubles    the numbers of JavaScript as an interface, with whole numbers as an instance of it;
--            Charts are the sizes of the bars in the charts of both portals
-- Api        the calls of frontend/src/lib/api-client.ts, a data type for each group; Api.Call joins
--            them, Api.Direct holds the two functions that call `fetch` themselves
-- Page       try, catch, finally and reload as the handlers of the pages use them
-- Login      frontend/src/app/login/page.tsx
-- Settings   frontend/src/app/settings/page.tsx: Settings.Appearance, Password, Profile,
--            Notifications, Team and Danger are its sections, Strength and Labels its helpers
--            pwStrength and timeAgo. The handlers of Danger are cut at their `await`, so that Danger.Steps, the relation of what
--            may happen next, has clicks between a request and its answer
-- Timeline   frontend/src/components/TimelineView.tsx: the sort by time, and the days
-- Signup     frontend/src/app/signup/page.tsx
-- LiveEvents frontend/src/app/events/page.tsx, as a step relation
-- Nav        frontend/src/components/Sidebar.tsx
-- Portals    both portals in one browser: the handlers of their login pages, sidebars and clients as
--            a sequence of events, and a specification of who is signed in
-- Overview   frontend/src/app/overview/page.tsx; Analytics is app/analytics/page.tsx, with what it
--            draws in Analytics.View
-- EventParts frontend/src/app/events/[id]/page.tsx, app/access-log/page.tsx and
--            frontend/src/components: EventDetailPanel.tsx, EventFilters.tsx
-- Proxy      frontend/src/proxy.ts; Proxy.Policy reads the policy as a browser does
-- Deletion   frontend/src/app/admin/deletion-requests/page.tsx
-- Users      frontend/src/app/admin/users/page.tsx
-- Keys       frontend/src/app/admin/api-keys/page.tsx; Keys.Reveal is the dialog of a new key
-- Sources    frontend/src/app/admin/sources/page.tsx
-- Alerts     frontend/src/app/alerts/page.tsx
-- AuditTrail frontend/src/app/audit-trail/page.tsx; AuditTrail.Narrative words an event there and on
--            the page of file activity
-- Grouping   `groupByDay` of frontend/src/components/TimelineView.tsx and of
--            frontend/src/app/audit-trail/page.tsx
-- Theme      frontend/src/lib/theme.ts
-- Views      the pages of frontend/src/app that load one answer: alert-rules, users-risk, timeline,
--            activity, admin/whistleblower; Activity is the grid of app/activity/page.tsx
-- Machines   frontend/src/app/admin/machines/page.tsx
-- FileActivity frontend/src/app/file-activity/page.tsx, its loads cut at their `await`
-- Billing    frontend/src/app/billing/page.tsx
-- Intrusions frontend/src/app/intrusion-detection/page.tsx, and the dots of
--            frontend/src/components/IntrusionMap.tsx
-- Chain      frontend/src/app/chain/page.tsx; Forensics is app/forensics/page.tsx, Investigate is
--            app/investigate/page.tsx and Report is app/report/page.tsx
-- Staff      staff-portal/src: Staff.Session is lib/auth.ts and lib/useRequireAuth.ts, Staff.Client
--            and Staff.Api are lib/api-client.ts, Staff.Login and Staff.Approval are app/login/page.tsx and
--            app/deletion-requests/page.tsx, Staff.Plans is app/plans/page.tsx, with the dialog of a plan
--            in Staff.Plans.Form; Staff.Page holds the shapes of the handlers. Staff.Support is
--            app/support/page.tsx, cut at its awaits like Settings.Danger, Staff.Tenants and
--            Staff.Tenant are app/tenants, and Staff.Announcements, Admins (app/staff-admins),
--            ClientUsers (app/users), ApiKeys, Subscriptions, AuditLog (app/audit) and Billing are the
--            pages of these names. Staff.Dashboard is app/dashboard, Staff.Figures app/analytics and
--            app/revenue, Staff.Health app/health and app/settings, Staff.Palette
--            components/CommandPalette.tsx, Staff.Nav components/Sidebar.tsx and ThemeToggle.tsx.
--            Staff.AuditLog.Delay is the timer before a load of app/audit, as moves in any order
-- Examples   the theorems at concrete inputs
--
-- A page is a record of its state, with a function for each handler: it takes the page and the
-- browser, and the answers of `fetch` to the calls it makes, and gives the page and the browser
-- after them. What the server does is an argument everywhere; so are the lower-case table of
-- Unicode, how `String` words an error, the text made of a pair of rounded coordinates, and the
-- environment variable of the API's address. So are toFixed, toLocaleString, the name of an error,
-- the nonce of the proxy, and the order in which calls that are awaited together fail. `undefined` for a text or a number is `none`,
-- as is `null` where the code treats both alike. An answer of 204, for which `request` gives
-- `undefined`, is left aside where a page expects a list.
--
-- Reading a number from a text (parseFloat, parseInt) is the interface Numbers of Staff.Plans.Form;
-- the prices of a plan there are counted in hundredths. The wording of a day (toLocaleDateString,
-- fmtDate) is a parameter of each function that groups by it.
-- The operations on doubles are the interface Doubles, whose laws are about numbers that are finite
-- and not negative. Numbers that the code reads are natural numbers. The only fuel is that of Query.Decimal, where the
-- number itself is enough, since each round divides it by ten. Markup, the length of a timer, file downloads and
-- the pages not named above are not modelled.
pub mod Base
pub mod Json
pub mod Browser
pub mod Session
pub mod Settings
pub mod Http
pub mod Text
pub mod Query
pub mod Client
pub mod Api
pub mod Page
pub mod Login
pub mod Signup
pub mod LiveEvents
pub mod Nav
pub mod Portals
pub mod Deletion
pub mod Users
pub mod Views
pub mod Overview
pub mod EventParts
pub mod Proxy
pub mod Activity
pub mod Billing
pub mod Intrusions
pub mod Chain
pub mod Machines
pub mod FileActivity
pub mod Forensics
pub mod Investigate
pub mod Report
pub mod Keys
pub mod Staff
pub mod Theme
pub mod Timeline
pub mod Examples
pub mod Grouping
pub mod Sources
pub mod Alerts
pub mod Analytics
pub mod AuditTrail
pub mod Charts
pub mod Doubles
