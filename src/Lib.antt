-- ===== src/Lib.antt =====
-- The front end of the datacenter manager, a single-page application in TypeScript and React over an
-- HTTP API. It shows and edits data centers, racks and the devices in them. What is modelled is the
-- logic of the views of the racks, of the tree of all infrastructure, of the graph of devices and its
-- canvas, of the dialogs that create and edit devices, of the session with its token refresh, and of
-- the layout of the exported drawing.
--
-- A component's state is a record of its `useState` values, a handler a function on it, and what a
-- handler sends is part of its result. The setters of one handler make one step. Numbers that the
-- code subtracts are exact integers, as JavaScript's are up to 2 ^ 53; `null` and `undefined` are
-- `none`. A mouse position is a whole number of 1/scale pixels, for any scale. Loops are structural
-- recursion, or count the rounds that are left, which is the number that the loop's bounds give.
--
-- * Topology follows the shapes of frontend/src/types/topology.ts.
-- * DeviceRecords follows the device of frontend/src/types/index.ts.
-- * DeviceForm is the table of frontend/src/lib/deviceFormConfig.ts, which tells the dialogs which
--   sections a type of device has.
-- * Elevation is the rack that is edited by mouse. Four views under frontend/src/components/topology
--   have a copy of that code: physical/RackDiagram.tsx, physical/RoomRackView.tsx, RackElevation.tsx
--   and FloorPlanRackPanel.tsx. `has_conflict` is hasConflict, `handle_mouse_move` and
--   `handle_mouse_up` are the listeners, `start_drag` and `start_resize` begin an interaction; the
--   child modules named for the views have their constants and what differs. Elevation/Mouse has
--   the step relation of the mouse, Elevation/Preview what it previews, Elevation/Layout and Elevation/Edits what its writes keep,
--   Elevation/Membership the slots of a device, Elevation/Conflict and
--   Elevation/Tiles the conflict test and the marking of tiles.
-- * AddDevice is physical/AddDeviceModal.tsx, opened from the elevation, with the slot that it
--   suggests (nextFreeSlot; AddDevice/FreeSlot, AddDevice/Placed) and the request that it sends.
--   AddDevice/Submit sets that request
--   against the validator of backend/app/schemas/device.py.
-- * DeviceEditor is the dialog of frontend/src/pages/Devices.tsx: DeviceEditor/Body builds the
--   requests' bodies, DeviceEditor/Save has validate and handleSave, DeviceEditor/Ip the pattern for
--   addresses, DeviceEditor/ChassisBlades the dialog that adds a blade. DeviceEditor/Checks,
--   DeviceEditor/Retry and DeviceEditor/RoundTrip are about saving.
-- * PhysicalView is the navigation of physical/PhysicalView.tsx, which mounts the rack views;
--   PhysicalView/Navigation has its step relation, PhysicalView/Ways where it leads back.
-- * Session is the token store (frontend/src/store/authStore.ts), the interceptors of
--   frontend/src/api/index.ts and the hooks of frontend/src/api/auth.ts: a machine over the list of
--   all calls, where each event is one continuation of the event loop. Session/Routes has the
--   guards of frontend/src/App.tsx.
-- * PdfExport is frontend/src/hooks/useExportTopologyPdf.tsx, reduced to where things are drawn.
--   PdfExport/Sections is about the racks' sections, PdfExport/Height about the height of the canvas.
-- * InfraRecords has the API's rows that the tree shows, and TreeView is frontend/src/pages/TreeView.tsx:
--   its state, the cache that it reads as a function of each query's key, toggle, expandAll,
--   collapseAll and handleSelect. TreeView/Rows has the components, each a list of rows and hints;
--   TreeView/Matching the search, TreeView/Speed and TreeView/Badge the labels, TreeView/DetailPanel
--   the panel, TreeView/Page the page with its handlers. TreeView/Visible is the relation that the rows refine (TreeView/Sound,
--   TreeView/Complete, TreeView/Refinement), TreeView/Sets and TreeView/Expansion are about the set
--   of expanded ids, TreeView/Refused about the limit of the server's pages, TreeView/Keys,
--   TreeView/Search and TreeView/Highlight about marked rows, TreeView/Unfiltered about the handlers
--   that are not about expansion.
-- * Graph has the nodes and edges that components/topology/PhysicalTopologyCanvas.tsx makes of the
--   API's graph. Graph/Grouping is its loop over the devices, with Graph/Partition about it, and
--   Graph/Elk is components/topology/useElkLayout.ts, with Graph/Layout about it. No page of the
--   repository mounts that canvas at present; NetworkTopologyCanvas.tsx uses the same layout, without
--   groups.
-- * CanvasUi is frontend/src/store/uiStore.ts with the components that change and read it: the context
--   menu, the side panel, the canvases, the device and link marks and the tabs of pages/Topology.tsx.
--   CanvasUi/Reach has the step relation, CanvasUi/Trace the tracing of a route.
-- * RoomPlan is the floor plan of physical/RoomFloorPlan.tsx, with RoomPlan/Apart about its places.
-- * FloorPlan is components/topology/DatacenterFloorPlan.tsx with what FloorPlanRackPanel.tsx shows;
--   FloorPlan/Panel is about clicks on racks.
-- * ChassisView is physical/ChassisDiagram.tsx with physical/AddBladeModal.tsx, and the two hooks
--   useChassisBlades of frontend/src/api/topology.ts and frontend/src/api/devices.ts.
--   ChassisView/SharedKey sets them against the dialog in DeviceEditor/ChassisBlades.
-- * DeviceList is the list of frontend/src/pages/Devices.tsx with components/common/Pagination.tsx and
--   the page parameters of backend/app/core/pagination.py: DeviceList/Paging is about the pager,
--   DeviceList/Requests about the limits of the server. Only the number of rows is modelled: which rows
--   a page has is the server's to say.
-- * Api is frontend/src/api, one definition for each hook, in child modules by subject, with the queries
--   of the tree view in Api/Tree; Api/Routes has the routes of backend/app/api/v1, one definition for
--   each decorator. Api/Hooks lists the hooks by form, Api/Server says which route a request is for.
--   Api/Served is about the answers' shapes, Api/Methods about mutations, Api/Sizes about page sizes,
--   Api/Refresh and Api/Views about invalidation, Api/Drops about what the views in Elevation
--   invalidate. An id is one segment of a path.
-- * Pages is the dialog that the list pages under frontend/src/pages share: open_create,
--   open_edit, handle_save and confirm_delete over a record of what differs, one value in each of
--   Pages/Vlans, SanFabrics, Licenses, Racks, Rooms, Corridors, DataCenters and Subnets.
--   Pages/Dialog says when it closes, Pages/Refused what the routes in Api mean for it,
--   Pages/RoundTrip is about unchanged edits and Pages/Schema sets the rack form against
--   backend/app/schemas/rack.py. Pages/Users is the page UserManagement.tsx, whose requests and
--   answers are steps of their own in Pages/Users/Sent, with what the dialogs have held for each
--   user; Pages/Users/Sound is about what is sent.
-- * Prelude has what the other modules share: lists, integers, texts of numbers.
--
-- The API's answers are parameters (`send`, `fetch`, `api`), and so are the merging of the persisted
-- state, `toLowerCase` (`lower`), `trim`, the layout library (`layout`), how the query library matches
-- keys (`Matching`) and how the framework routes requests (`Server`), both with the documented laws.
-- A device of the tree is rendered on fuel, one for each chassis within a chassis; any fuel above the
-- rank of every device is enough.
-- `String(n)` is fuelled by n itself, as n is divided by ten at each digit.
-- parseInt is modelled for what number fields hold, and parseFloat's result is kept as the text it
-- reads. Not modelled: markup, styles and canvas calls, when the query library fetches, the other
-- pages, and the backend but for its routes and three checks of requests.
pub mod Prelude
pub mod Topology
pub mod DeviceRecords
pub mod InfraRecords
pub mod DeviceForm
pub mod Elevation
pub mod AddDevice
pub mod DeviceEditor
pub mod PhysicalView
pub mod Session
pub mod PdfExport
pub mod TreeView
pub mod Graph
pub mod CanvasUi
pub mod RoomPlan
pub mod ChassisView
pub mod FloorPlan
pub mod DeviceList
pub mod Api
pub mod Pages
