-- ===== src/I18n/Catalogues/Chinese.antt =====
-- internal/i18n/zh.go: the Chinese catalogue.
use scuffinger.Prelude.{[], ◌∷◌}
use scuffinger.I18n.{Messages}
use scuffinger.I18n.Keys

unfoldable pub chinese : Messages
chinese =
    (Keys.msg_config_loaded, "配置已加载")
    ∷ (Keys.err_config_load, "加载配置失败")
    ∷ (Keys.msg_bootstrap_connecting, "正在连接后端服务")
    ∷ (Keys.msg_bootstrap_self_tests, "正在运行启动自检")
    ∷ (Keys.msg_bootstrap_tests_passed, "所有自检均已通过")
    ∷ (Keys.msg_bootstrap_health_start, "已启动定期健康检查")
    ∷ (Keys.err_bootstrap_connect, "无法连接到所需服务")
    ∷ (Keys.err_bootstrap_self_tests, "启动自检失败")
    ∷ (Keys.msg_manager_connecting, "正在连接服务")
    ∷ (Keys.msg_manager_connected, "已连接到服务")
    ∷ (Keys.msg_manager_self_test, "正在运行自检")
    ∷ (Keys.msg_manager_self_test_passed, "自检通过")
    ∷ (Keys.msg_manager_closing, "正在关闭服务")
    ∷ (Keys.warn_manager_health_failed, "健康检查失败")
    ∷ (Keys.err_manager_connect, "连接服务失败")
    ∷ (Keys.err_manager_self_test, "服务自检失败")
    ∷ (Keys.err_manager_close, "关闭服务时出错")
    ∷ (Keys.err_manager_shutdown, "关闭过程中发生错误")
    ∷ (Keys.msg_cache_self_test_init, "正在使用当前时间戳设置init键")
    ∷ (Keys.msg_cache_self_test_passed, "缓存自检通过")
    ∷ (Keys.err_cache_ping, "缓存不可达")
    ∷ (Keys.err_cache_set_init, "向缓存写入init键失败")
    ∷ (Keys.err_cache_get_init, "从缓存读取init键失败")
    ∷ (Keys.err_cache_init_mismatch, "缓存init值不匹配")
    ∷ (Keys.msg_db_creating_test_db, "正在创建临时测试数据库")
    ∷ (Keys.msg_db_running_crud, "正在运行CRUD验证")
    ∷ (Keys.msg_db_self_test_passed, "数据库自检通过")
    ∷ (Keys.warn_db_drop_test_failed, "无法删除测试数据库（将在下次启动时重试）")
    ∷ (Keys.err_db_connect, "数据库不可达")
    ∷ (Keys.err_db_ping, "数据库未响应ping")
    ∷ (Keys.err_db_create_testdb, "创建测试数据库失败")
    ∷ (Keys.err_db_connect_testdb, "连接测试数据库失败")
    ∷ (Keys.err_db_crud, "数据库CRUD验证失败")
    ∷ (Keys.err_db_create_table, "创建测试表失败")
    ∷ (Keys.err_db_insert, "插入测试记录失败")
    ∷ (Keys.err_db_read, "读取测试记录失败")
    ∷ (Keys.err_db_read_mismatch, "测试记录的值与预期不符")
    ∷ (Keys.err_db_update, "更新测试记录失败")
    ∷ (Keys.err_db_read_after_update, "更新后读取测试记录失败")
    ∷ (Keys.err_db_update_mismatch, "更新后的测试记录值与预期不符")
    ∷ (Keys.msg_server_starting, "HTTP服务器正在启动")
    ∷ (Keys.msg_server_shutdown, "正在关闭HTTP服务器")
    ∷ (Keys.msg_server_stopped, "HTTP服务器已正常停止")
    ∷ (Keys.msg_server_routes, "路由已注册")
    ∷ (Keys.err_server_listen, "HTTP服务器遇到错误")
    ∷ (Keys.err_server_shutdown, "HTTP服务器被强制关闭")
    ∷ (Keys.msg_health_ready, "所有服务运行正常")
    ∷ (Keys.msg_health_not_ready, "一个或多个服务未就绪")
    ∷ (Keys.msg_gh_connecting, "正在连接GitHub API")
    ∷ (Keys.msg_gh_connected, "已连接到GitHub API")
    ∷ (Keys.msg_gh_auth_token, "正在使用个人访问令牌进行身份验证")
    ∷ (Keys.msg_gh_auth_app, "正在以GitHub App身份进行身份验证")
    ∷ (Keys.msg_gh_self_test_passed, "GitHub自检通过")
    ∷ (Keys.msg_gh_rate_remaining, "GitHub API速率限制状态")
    ∷ (Keys.warn_gh_rate_low, "GitHub API速率限制即将耗尽")
    ∷ (Keys.err_gh_not_configured, "GitHub未配置 — 请设置令牌或应用凭据")
    ∷ (Keys.err_gh_auth, "GitHub身份验证失败")
    ∷ (Keys.err_gh_read_key, "读取GitHub App私钥文件失败")
    ∷ (Keys.err_gh_parse_key, "解析GitHub App私钥失败")
    ∷ (Keys.err_gh_install_token, "获取GitHub App安装令牌失败")
    ∷ (Keys.err_gh_self_test, "GitHub自检失败")
    ∷ (Keys.err_gh_rate_limit, "GitHub API速率限制过低")
    ∷ (Keys.err_gh_fetch_user, "获取GitHub用户失败")
    ∷ (Keys.err_gh_fetch_org, "获取GitHub组织失败")
    ∷ (Keys.err_gh_fetch_repo, "获取GitHub仓库失败")
    ∷ (Keys.err_gh_fetch_branches, "获取仓库分支失败")
    ∷ (Keys.err_gh_fetch_workflows, "获取仓库工作流失败")
    ∷ (Keys.err_gh_fetch_runs, "获取工作流运行记录失败")
    ∷ (Keys.err_gh_fetch_rate_limit, "获取GitHub速率限制失败")
    ∷ (Keys.err_gh_invalid_workflow, "无效的工作流ID")
    ∷ (Keys.msg_gh_collector_starting, "正在启动GitHub仓库收集器")
    ∷ (Keys.msg_gh_collector_tick, "正在执行GitHub收集周期")
    ∷ (Keys.msg_gh_collector_repo, "正在收集仓库数据")
    ∷ (Keys.msg_gh_collector_stopped, "GitHub仓库收集器已停止")
    ∷ (Keys.msg_gh_collector_passed, "GitHub收集器自检通过")
    ∷ (Keys.msg_gh_collector_annotations, "已收集失败任务的注释")
    ∷ (Keys.msg_gh_collector_lock_acquired, "已获取仓库的收集锁")
    ∷ (Keys.msg_gh_collector_lock_skipped, "跳过仓库（另一个实例持有锁）")
    ∷ (Keys.warn_gh_collector_lock_error, "获取分布式锁失败（仍继续执行）")
    ∷ (Keys.err_gh_collector_fetch_repo, "获取仓库元数据失败")
    ∷ (Keys.err_gh_collector_fetch_runs, "获取工作流运行失败")
    ∷ (Keys.err_gh_collector_fetch_jobs, "获取工作流任务失败")
    ∷ (Keys.err_gh_collector_fetch_annotations, "获取检查运行注释失败")
    ∷ (Keys.err_gh_collector_no_repos, "没有配置需要监控的仓库")
    ∷ (Keys.err_gh_collector_parse_repo, "无效的仓库格式（期望格式: owner/repo）")
    ∷ (Keys.msg_auth_device_prompt, "在URL中输入代码以进行身份验证")
    ∷ (Keys.msg_auth_polling, "正在等待GitHub授权…")
    ∷ (Keys.msg_auth_success, "GitHub身份验证成功")
    ∷ (Keys.msg_auth_logged_out, "GitHub凭据已删除")
    ∷ (Keys.msg_auth_status_logged_in, "已登录GitHub")
    ∷ (Keys.msg_auth_status_no_token, "未登录 — 运行 'scuffinger github auth' 进行身份验证")
    ∷ (Keys.msg_auth_token_from_vault, "正在使用系统保险库中的GitHub令牌")
    ∷ (Keys.err_auth_no_client_id, "OAuth登录需要设置github.client_id")
    ∷ (Keys.err_auth_device_code, "启动GitHub设备流程失败")
    ∷ (Keys.err_auth_poll, "完成GitHub授权失败")
    ∷ (Keys.err_auth_save_token, "保存令牌到系统保险库失败")
    ∷ (Keys.err_auth_verify_token, "存储的令牌已失效")
    ∷ (Keys.cmd_root_short, "Scuffinger — 轻量级GitHub监控服务")
    ∷ (Keys.cmd_root_long, "Scuffinger是一个用于监控GitHub仓库、工作流和指标的轻量级服务。使用Cobra、Viper和Gin构建。")
    ∷ (Keys.cmd_version_short, "显示版本号")
    ∷ (Keys.cmd_version_long, "显示scuffinger应用程序的当前版本，包括可用的构建信息。")
    ∷ (Keys.cmd_serve_short, "启动HTTP服务器")
    ∷ (Keys.cmd_serve_long, "启动带有健康检查、Prometheus指标和GitHub API端点的Gin HTTP服务器。服务器在启动时连接到所有配置的后端服务。")
    ∷ (Keys.cmd_github_short, "GitHub身份验证和状态")
    ∷ (Keys.cmd_github_long, "管理GitHub OAuth身份验证。使用子命令通过设备流程登录、检查身份验证状态或删除存储的凭据。")
    ∷ (Keys.cmd_github_auth_short, "使用OAuth进行GitHub身份验证")
    ∷ (
      Keys.cmd_github_auth_long,
      "启动GitHub OAuth设备流程。您将获得一个一次性代码，在github.com/login/device输入。授权后，令牌将安全存储在系统保险库中。",
    )
    ∷ (Keys.cmd_github_status_short, "显示当前身份验证状态")
    ∷ (Keys.cmd_github_status_long, "显示当前GitHub身份验证状态，包括凭据是存储在配置文件、环境变量还是系统保险库中。")
    ∷ (Keys.cmd_github_logout_short, "删除存储的GitHub凭据")
    ∷ (Keys.cmd_github_logout_long, "删除存储在系统保险库中的所有GitHub OAuth令牌。不影响通过配置文件或环境变量配置的令牌。")
    ∷ (Keys.cmd_github_monitor_short, "启动GitHub仓库收集器")
    ∷ (
      Keys.cmd_github_monitor_long,
      "启动后台GitHub收集器，定期获取仓库元数据、工作流运行记录和任务步骤耗时。提供健康检查和Prometheus指标端点，但不提供API代理路由。设计为与API服务器分开运行的独立进程。",
    )
    ∷ (Keys.cmd_flag_config, "配置文件路径")
    ∷ []
