-- ===== src/Lib.antt =====
-- Next Terminal's web client (web/src): what its pages keep and do, apart from how they look.
--
-- A page asks the server through the verbs of web/src/common/request.js, most of them by the
-- classes of web/src/api; the verbs show errors themselves and may leave a promise pending for
-- ever, on which the login form and the file manager wait. The pages of a terminal and of a
-- desktop open a session by the same verbs and then live on a socket. The week's table keeps to
-- itself and reports its periods to the form that holds it.
--
-- Base holds the numbers, tests, lists and texts that the parts share. A text is the list of its
-- code points; numbers are natural numbers, as the values of the source are not negative where
-- they are modelled, and a subtraction is used only where the source does not go below 0.
--
-- Schedule models web/src/dd/drag-weektime/DragWeekTime.js. Cells holds the constant data and the
--   labels, Splicing the text of a day's periods, Render the table's state and its handlers
--   (handleMouseEnter, handleMouseDown, handleMouseUp, renderWeekTime and what they call), where
--   `none` is an exception. A grid (Grid) is the data whose marks are given by a function. The
--   clock of the browser, which turns an instant into a date, is a parameter; Labels says what a
--   zone is.
-- Request models web/src/common/request.js (Handlers, Verbs), web/src/api/api.js and
--   web/src/api/session.js (Api), the other classes of web/src/api (Endpoints) and
--   web/src/components/Login.js (Login). axios and `qs.stringify` are parameters: a request ends
--   with a response or an error. A verb gives what it shows and its promise.
-- Files models web/src/components/devops/FileSystem.js (Listing, Manager, Forms, Rows, Sorting,
--   Sending, Upload), web/src/components/worker/MyFile.js (Own) and `getFileName` of
--   web/src/utils/utils.js (Paths). A handler takes the promise of its request and gives the
--   state once that has settled, and what has been asked and shown by then as events.
--   `toUpperCase` is a parameter.
-- Access models web/src/components/access/Message.js, Term.js and Guacd.js there, and
--   TermMonitor.js and GuacdMonitor.js of web/src/components/session. A page is a record; its
--   outputs, requests and notices are lists. A scale is a fraction, as a numerator and a
--   denominator. Base 64 is a parameter. Closing is what follows a
--   message that ends the session. Stats models Stats.js of web/src/components/access,
--   Toolbar the buttons, drawers and the clipboard's dialogue over the pages, Input the desktop's
--   keyboard and mouse.
-- Layout models web/src/service/permission.js, web/src/common/auth.js, the menu, the breadcrumb
--   and the sider of web/src/layout/ManagerLayout.js, whose entries are shared by all renderings,
--   with the entries of web/src/layout/router.js, web/src/hook/column-state.js (Columns), and
--   web/src/layout/UserLayout.js (Worker).
-- Tables models what the pages with a table share, one function for each page: the `request` of
--   the table (Requests), its dialogue and `handleOk` (Dialogue, Saves), its buttons (Actions)
--   and the dialogues that bind records (Bindings, Authorising), the columns of its table
--   (Columns), the buttons over it (Toolbars), its cells (Cells, Marks), and which of the fields
--   that it searches by the request asks for (Searches). An async function returns, throws or
--   waits for ever.
-- Views holds what the forms and the tables are made of: an item with its conditions and rules,
--   and a column with what it is sorted and searched by.
-- Assets models web/src/components/asset/AssetModal.js (Form), over the values of a form
--   (Fields), and the items and panels of its dialogue (Basic, Advanced, Showing), and the tests
--   of connections, the import and the change of an owner in Asset.js there (Checks, Tasks).
-- Forms models the other dialogues: RoleModal.js (Menus), StorageModal.js (Storage), JobModal.js
--   (Loaders), and what the forms of credentials, commands, gateways, rules, strategies and login
--   policies hold when they open. Items has the items of these forms.
-- Accounts models web/src/components/Info.js (Password), Totp.js and AccessToken.js there
-- (Factor).
-- Batch models web/src/components/devops/BatchCommand.js (Waiting) and ExecuteCommand.js
--   (Terminals), and an older terminal, web/src/components/access/BatchCommandTerm.js (Single).
-- Dashboard models web/src/components/dashboard/Dashboard.js (Overview), and Monitoring.js there
--   with web/src/api/monitor.js (Monitor, Drawing). A number that need not be whole is a
--   fraction.
-- Playback models web/src/components/session/GuacdPlayback.js, and Playback.js there (Older). The
--   library's recording is a parameter (Recorder).
-- Settings models web/src/components/setting/Setting.js (Properties, Page), with the items of its
--   tabs (Tabs).
-- Shell models web/src/hook/title.js (Title), web/src/utils/fun.js (Debounce), and
--   web/src/dd/fi/show.js, web/src/components/Redirect.js, the tabs of
--   web/src/components/asset/AssetDetail.js and web/src/utils/week.js (Entry).
-- Utils models helpers of web/src/utils/utils.js, times.js and strings.js; Durations is
--   `differTime` for a second date not before the first, and Sizes `renderSize` of whole numbers.
-- Tests applies the theorems to concrete values.
--
-- Loops are structural recursion. The loop of `renderTimePeriod` runs on the rounds that are
-- left, a number known before it starts; `decimal` runs on fuel that is one more than the number,
-- of which each digit takes one and divides the number by ten. The floor of a quotient of
-- logarithms, which `renderSize` takes, is a parameter, since the engine's rounds.
-- `Array.prototype.sort` is modelled as a stable insertion sort by the comparison the source
-- gives it.
--
-- Not modelled: the layout and the styles of the pages, the DOM, the libraries (React, antd, axios,
-- Guacamole, xterm.js), most pages of details, the drawing of charts, the service worker, and the
-- server, which is another program.
pub mod Access
pub mod Accounts
pub mod Assets
pub mod Base
pub mod Batch
pub mod Dashboard
pub mod Files
pub mod Forms
pub mod Layout
pub mod Playback
pub mod Request
pub mod Schedule
pub mod Settings
pub mod Shell
pub mod Tables
pub mod Utils
pub mod Views
mod Tests
